-- ===== src/SlabAllocator/FreeList/Tests.antt =====
-- Runs of the free slots of a class (src/cache/slab_allocator.cc).
use dingo_cache.Common.{◌≡◌, refl, some, [], ◌∷◌, ◌++◌}
use dingo_cache.SlabAllocator.Program.{program}
use dingo_cache.SlabAllocator.State.{Class, no_class}
use dingo_cache.SlabAllocator.FreeList.{
  free_of, push_free, pop_free, take_free_slot, drop_extent_free,
}
use dingo_cache.SlabAllocator.FreeList.Rotation.{IsRotation, Replaces, push_free-Pushes}
use dingo_cache.SlabAllocator.FreeList.Popping.{Pops, pop_free-Pops}
use dingo_cache.SlabAllocator.FreeList.Taking.{Takes, take_free_slot-Takes}
use dingo_cache.SlabAllocator.FreeList.Dropping.{Drops, drop_extent_free-Drops}

abbrev first : Class
first = push_free no_class 3 0

abbrev busy : Class
busy = push_free (push_free first 5 2) 3 1

no_class-IsRotation : IsRotation no_class
unfolding free_of
no_class-IsRotation = record { once = λ e. refl; total = refl }

first-IsRotation : IsRotation first
first-IsRotation = (push_free-Pushes no_class 3 0 no_class-IsRotation).0

busy-IsRotation : IsRotation busy
busy-IsRotation =
    (push_free-Pushes (push_free first 5 2) 3 1 (push_free-Pushes first 5 2 first-IsRotation).0).0

pop_free-busy : (pop_free busy).1 ≡ some (record { extent = 3; slot = 1 })
unfolding program
pop_free-busy = refl

push_free-Pushes_run :
    IsRotation (push_free first 3 1)
    × Replaces 3 (free_of first 3 ++ 1 ∷ []) first (push_free first 3 1)
push_free-Pushes_run = push_free-Pushes first 3 1 first-IsRotation

pop_free-Pops_example : IsRotation (pop_free busy).0 × Pops busy (pop_free busy).0 (pop_free busy).1
pop_free-Pops_example = pop_free-Pops busy busy-IsRotation

take_free_slot-Takes_example :
    IsRotation (take_free_slot busy 5 2).0
    × Takes busy 5 2 (take_free_slot busy 5 2).0 (take_free_slot busy 5 2).1
take_free_slot-Takes_example = take_free_slot-Takes busy 5 2 busy-IsRotation

drop_extent_free-Drops_example : Drops busy 3 (drop_extent_free busy 3)
drop_extent_free-Drops_example = drop_extent_free-Drops busy 3 busy-IsRotation
