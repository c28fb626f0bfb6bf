-- ===== src/Lib.antt =====
-- GTNH Platform, a voxel game server in C++: its core rules as a library of definitions and theorems.
--
-- The parts and their files:
--
-- Base: names of the library passed on, Boolean tests, lists measured by native numbers, lists of ids,
-- bitwise operations, and integers for `int32_t` (Base/Int: `quot` and `times` are C++ division and
-- multiplication of such an integer by a number that is not negative).
--
-- Inventory (src/game/storage/InventoryClick.h): the table of click rules on slot arrays. `slot_at`,
-- `merge_into`, `apply_click`, `apply_quick_move`, `apply_drop`, `apply_drag_place`,
-- `apply_pickup_all` and `apply_container_click` are the functions of the same names; Inventory/Deal
-- has their loops, Inventory/Rules the rules. Counts are bytes and wrap. Inventory/Handler is
-- InventoryActionHandler::handle (src/game/storage/InventoryActionHandler.cpp) with the container
-- session (src/game/storage/ContainerSession.h): the player's slots are a copy that is written back, the
-- session's slots are changed in place. What is called besides is a list of effects.
--
-- Store (src/game/storage/PlayerInventoryStore.cpp): the player inventories that the handler copies
-- from and writes back to, and the players' game modes; its callbacks are events. Store/Give is giveItem.
--
-- Drain (src/apps/pipe_network/PipeConsumeTransactions.h): the tracker of fluid consumes that wait for
-- a drain response. Drain/Tracker and Drain/Sweeps have one function per method; `sweep` is the loop
-- over the pending map, and `step` and `run` are histories of calls. Ticks wrap at 2^64.
--
-- Section (src/apps/chunk_store/Storage/cache/MutableSection.cpp): the blocks of a section as a palette with
-- packed indices. Section/Packed has the bits, Section/Palette the ids, Section/Blocks and
-- Section/Reads what the representations read, Section/Written setBlock with its promotions and
-- demotion, Section/Loaded fromBlocks. Section/Sparse and Section/Entries are the metadata and the
-- multiblock ids, Section/Bytes, Section/Wire, Section/WireMeta,
-- Section/WireSection, Section/WireIndices and Section/RoundTrip the wire format. setBlock runs on fuel for its calls of itself, of which two are
-- enough.
--
-- Chunk (src/apps/chunk_store/Storage/cache/MutableChunk.cpp): eight sections, by position.
--
-- Cache (src/apps/chunk_store/Storage/cache/ClockCache.h): one set of the clock cache. Cache/Slots has its four
-- slots, Cache/Eviction put and erase. put runs on fuel for the rounds of its loop, of which two are
-- enough when no other thread interferes.
--
-- Cable (src/apps/pipe_network/CableGraph.cpp): the graph of energy cables. Cable/Routes and
-- Cable/Search are the search of findPath, Cable/Settled and Cable/Complete that it finds what there is;
-- Cable/Operations has the operations on the state. The searches run on fuel of two rounds more than
-- there are nodes: each round but the last takes a visit from the queue, and each node is queued once
-- at most.
--
-- Cas (src/apps/chunk_store/Storage/CASHandler.cpp): compare-and-swap of blocks and the deferred flush,
-- over a record of the operations of chunk, cache and LMDB store, of which no law is assumed. Cas/Queue
-- is the queue of changes, Cas/Updates any casBlock calls, Cas/Flush the flush.
--
-- Crafts (src/engine/sim/components/RecipeProgress.h): reservations of a craft's external resources.
--
-- Energy (src/engine/sim/components/EnergyStorage.h) and Energy/Transformer
-- (src/game/machines/TransformerSystem.cpp): energy buffers and transformers, whose step-up is in
-- Energy/Transformer/Balance and step-down in Energy/Transformer/Down.
--
-- Turbine (src/game/machines/SteamTurbineSystem.cpp): the turbines' tick and the fluid responses, with
-- the events that they send; `run` is a history of both.
--
-- Generator (src/game/machines/GeneratorSystem.cpp): the generators' tick, with the updates that it sends.
--
-- Quests (src/game/quests/QuestGraph.cpp): the queries on the quest graph. Quests/Manager is the quest manager
-- (src/game/quests/QuestManager.cpp) for one player, with what it publishes as events:
-- Quests/Manager/Detection has the checks that meet objectives, Quests/Manager/Load loadProgress.
-- Quests/Manager/Completion and Quests/Manager/Calls are the abstract steps that the calls follow,
-- Quests/Manager/Loads any sequence of calls, loadProgress among them, Quests/Manager/History sequences
-- without it, Quests/Manager/CaughtUp and Quests/Manager/Waiting that
-- no quest waits.
--
-- OpenMap (src/engine/registry/OpenHashMap.h): the hash map with linear probing and backward-shift
-- deletion. OpenMap/Positions counts the slots from a cut that no probe path passes, OpenMap/Sound is the
-- invariant on the keys, OpenMap/Search and OpenMap/Returned the probe loops, OpenMap/Writes and
-- OpenMap/Inserted insert, OpenMap/Shift, OpenMap/Moves, OpenMap/Closed and OpenMap/Erased erase, and
-- OpenMap/Laws, OpenMap/Full and OpenMap/History what the calls do to find. The loops run for the number
-- of slots, as in the source.
--
-- Matcher (src/game/crafting/GridPatternMatcher.cpp): matching a crafting grid with a pattern.
--
-- Frame (src/engine/net/src/frame.cpp): the frames of the network layer.
--
-- Container (src/engine/sim/components/InventoryContainer.h): the slots of a block, with addItem and
-- removeItem.
--
-- Loops are structural recursion on the list that the source's loop walks, or on the number of its
-- rounds, except for setBlock, put and the searches of the cable graph. Hash maps are association lists, so what a loop over one returns stands
-- in the order of the list.
--
-- Not modelled: decoding and building of FlatBuffers, locks, logging, publication to the network,
-- rendering and the client, the services in other languages; the tick of the cable graph, which
-- computes in floating point, the pipe network's service, the threads of the chunk cache, the LMDB store and
-- the other machines. Amounts of `int32_t` are integers that do not
-- overflow.

pub mod Base
pub mod Cable
pub mod Cache
pub mod Cas
pub mod Chunk
pub mod Container
pub mod Crafts
pub mod Drain
pub mod Energy
pub mod Frame
pub mod Generator
pub mod Inventory
pub mod Matcher
pub mod OpenMap
pub mod Quests
pub mod Section
pub mod Store
pub mod Turbine
