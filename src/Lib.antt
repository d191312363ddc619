-- ===== src/Lib.antt =====
-- DingoCache's core logic, modelled and verified: the slab allocator of the cache server, the routing of keys,
-- the identity of objects and its wire formats, and the resources and health of RDMA connections.
--
-- The program. A cache node keeps objects in fixed-size slots: a pool of extents is shared by size
-- classes, each extent is bound to one class at a time and cut into slots of one size. The allocator
-- (src/cache/slab_allocator.h and src/cache/slab_allocator.cc) decides which slot an object gets,
-- finds it again by its key, and chooses what to evict. The disk store and the RAM tier call it and
-- keep the bytes; they give it callbacks that clear durable records before residents are forgotten.
--
-- The model. `Allocator` (SlabAllocator/State) holds the fields of class SlabAllocator; an operation
-- takes an allocator and returns the new one with its result. Vectors are lists, pointers into them
-- are numbers, and the vector `evicted` of the caller is a field that operations append to. The
-- operations run under one mutex, so each is one step.
--   KvTypes                 src/common/kv_types.h: BlockKey, its equality, Filename and ParseFilename
--   SlabAllocator/Index     FlatKeyIndex: Find, Insert, Erase, Reserve, Rehash, Hash
--   SlabAllocator/FreeList  PushFreeLocked, PopFreeLocked, TakeFreeSlotLocked, DropFromRotationLocked,
--                           DropExtentFreeLocked
--   SlabAllocator/Lattice   AlignUp, CanonicalSlotSize, ClassForLen, ClassForExactSize and the classes
--                           that the constructor makes
--   SlabAllocator/Rings     AcquireSlotMetaLocked, the Link functions, the unlinking parts of
--                           FreeSlotLocked, DecayedHeat, StealsBeforeLocked, TouchLocked
--   SlabAllocator/Extents   BindExtentLocked, BindFreeExtent, ProtectLocked, UnprotectLocked,
--                           FreeSlotLocked, EvictOneFrom
--   SlabAllocator/Steal     StealExtentFor, StealColdExtentFor, StealExtentLocked, StealFrom,
--                           ReclaimClass, EvictColdToTarget
--   SlabAllocator/Pins      Get, GetAndPin, Contains, Remove, Pin, Unpin, with and without a handle
--   SlabAllocator/Retention ConfigureRetention, Retain, ExpireRetention, RetentionHeadroomPct, and the
--                           part of RestoreBulk that brings protections back
--   SlabAllocator/Admit     the constructor and Put
--   SlabAllocator/Restore   RestoreBulk
--   SlabAllocator/Report    Classes, BoundExtents, ColdestGrowDonor and the counts of GetRetentionStats
-- Beside the allocator: the reclaimer of the disk store keeps at work while new objects are admitted, and
-- the RDMA transport admits connections within a budget and chooses among the connections of an endpoint;
-- the client splits the keys for one node over several connections.
--   NewPutDemandLatch       src/cache/new_put_demand_latch.h: BeginTick and EndTick
--   Transport/ResourceBudget src/transport/rdma_resource_budget.h: AdaptiveBudgetTarget, TryAcquire, Acquire,
--                           Release, RaiseLimit; a wait in Acquire is two steps of ResourceBudget/World
--   Transport/EndpointSchedule src/transport/endpoint_schedule.h: SelectEndpointConnection
--   GroupShard              src/client/group_shard.h: ShardGroups
-- A client names an object by its namespace and descriptor, hashes that name to a key, finds the node of a key
-- on a hash ring, leaves nodes that fail alone for a while, has workers
-- read the shards of its batches, picks a rail, and speaks to it in frames; the server leases receive memory
-- to it.
--   Namespace               src/common/namespace.h and .cc: Validate and Serialize of the descriptors
--   Status                  src/common/status.h
--   Net                     src/utils/net_util.h: PutU32, PutU64, GetU32, GetU64
--   ConHash                 src/utils/con_hash.h and .cc: AddNode, Build, Lookup
--   PeerHealth              src/client/peer_health.h: Healthy, MarkBad, MarkGood, MarkProbeAlive; PeerHealth/Calls
--                           runs sequences of them
--   ReadScheduler           src/client/read_scheduler.h: Run up to its wait, and the rounds of WorkerLoop;
--                           ReadScheduler/Once interleaves them, ReadScheduler/Draining runs rounds to the end
--   Transport/Wire          src/transport/wire.h: the prefixes of requests and responses, retention payloads
--   Transport/RdmaProtocol  src/transport/rdma_protocol.h: slot geometry and control frames
--   Transport/RailHealth    src/transport/remote_rail_health.h and .cc: the constructor, TryAcquire, Complete,
--                           AllowedMask, Reconcile; RailHealth/Calls and RailHealth/Once run sequences of them
--   Transport/Operation     src/transport/rdma_operation.h: Submit, ClaimPoller, RequestCancel, Complete as
--                           atomic steps; Operation/Claim interleaves the steps of threads
--   Transport/RecvSegment   src/transport/rdma_recv_segment.h and .cc: RecvSegment with Init, Allocate, Release;
--                           RecvSegment/World runs sequences of leases
--   Transport/RecvPool      the same files: RecvSegmentPool with Init, Allocate, Lease::Reset, TrimIdle
-- SlabAllocator/Frame says which steps leave the records alone but for rings and recency, and
-- SlabAllocator/Owned that the index and the slot records agree. Tests modules hold runs.
--
-- Bounds and fuel. Hashes, byte counts and sequence numbers are 64-bit words, with the wrap-around
-- written out; counts of objects in memory (sizes of vectors, slots, references) are plain numbers.
-- Loops run on fuel that bounds their rounds: a probe visits each bucket once; the doubling loops
-- double at most as often as the wanted size says; CanonicalSlotSize grows by the alignment at least;
-- the CLOCK, ReclaimClass and EvictColdToTarget have their own limits in the source; the wipe of an
-- extent has as many rounds as there are slot records. Put runs on as many rounds as there are residents and
-- extents to move. The loop of CooldownFor has as many rounds as failures before; the digits of an int are
-- fewer than eleven; the loops over nodes, keys and ranges are structural.
--
-- Not modelled: the mutexes, failure of memory allocation but for receive segments, reading the environment, and the report of the
-- configuration. The fraction `max_waste` is a double: the options hold whether it is positive and the
-- quotient that the source computes from it, as a function. A callback is a function of the number
-- of the call, so that its answers may change. The digest MD5 is a function that the ring takes, so that what
-- is proved holds of every digest; addresses that the system's allocator gives, times and thread numbers are
-- arguments. Error texts, metrics texts, memory orders and socket or verbs calls are left out, and so are the other
-- components of the program: the stores behind the allocator, the servers, the client and the metadata service.
pub mod Common
pub mod ConHash
pub mod GroupShard
pub mod KvTypes
pub mod SlabAllocator
pub mod Namespace
pub mod Net
pub mod NewPutDemandLatch
pub mod PeerHealth
pub mod ReadScheduler
pub mod Status
pub mod Transport
