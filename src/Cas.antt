-- ===== src/Cas.antt =====
-- The compare-and-swap updates of blocks in apps/chunk_store/Storage/CASHandler.{h,cpp}, less its lock
-- and its log. The chunk cache, the chunks and the LMDB store are what this file asks of them. A
-- block coordinate, `int32_t` in the source, is an integer.
pub mod Queue
pub mod Flush
pub mod Updates
mod Tests
use gtnh_platform.Base.{
  ℕ, ◌+◌, ◌-◌, ◌*◌, ◌/◌, ◌%◌, ◌≡◌, Bool, true, false, Option, none, some, List, [], ◌∷◌, ◌++◌, ◌==◌,
  if◌then◌else◌, length,
}
use gtnh_platform.Base.Int.{ℤ, pos, negsuc}

-- `x >> 5`
pub chunk_of : ℤ → ℤ
chunk_of (pos n) = pos (n / 32)
chunk_of (negsuc n) = negsuc (n / 32)

-- `x & 31`
pub local_of : ℤ → ℕ
local_of (pos n) = n % 32
local_of (negsuc n) = 31 - n % 32

-- A position in a chunk.
pub record Local : Type 0 where
  pub lx : ℕ
  pub ly : ℕ
  pub lz : ℕ

-- `(ly << 10) | (lz << 5) | lx`, whose three fields of five bits do not overlap.
pub pack_idx : Local → ℕ
pack_idx p = p.ly * 1024 + p.lz * 32 + p.lx

-- What `flush` reads from an index: `idx & 0xF`, `(idx >> 8) & 0xF` and `(idx >> 4) & 0xF`.
pub unpack_idx : ℕ → Local
unpack_idx idx = record { lx = idx % 16; ly = idx / 256 % 16; lz = idx / 16 % 16 }

pub record PendingChange : Type 0 where
  pub idx : ℕ
  pub block_id : ℕ
  pub meta : ℕ

abbrev pub PendingQueue : Type 0
PendingQueue = List (ℕ × List PendingChange)

-- A read of the store: `ReadError::Failed`, the other read error, or the bytes.
pub data ReadResult (W : Type 0) : Type 0 where
  failed : ReadResult W
  missing : ReadResult W
  found : W → ReadResult W

-- What the handler asks of MutableChunk (chunks `C`, bytes `W`), of ChunkCache (`K`) and of
-- LmdbStore (`D`). A write that fails returns `none`.
pub record Backend (C W K D : Type 0) : Type 0 where
  pub get_block : C → Local → ℕ
  pub get_meta : C → Local → ℕ
  pub set_block : C → Local → ℕ → C
  pub set_meta : C → Local → ℕ → C
  pub from_wire : W → Option C
  pub encode_to_wire : C → W
  pub cached : K → ℕ → Option C
  pub put : K → ℕ → C → K
  pub make_key : ℤ → ℤ → ℤ → ℕ
  pub read_raw : D → ℕ → ReadResult W
  pub write_raw : D → ℕ → W → Option D

pub data Status : Type 0 where
  conflict ok : Status

pub record CasResult : Type 0 where
  pub status : Status
  pub actual_block : ℕ
  pub actual_meta : ℕ

abbrev pub no_chunk : CasResult
no_chunk = record { status = conflict; actual_block = 0; actual_meta = 0 }

-- `pending_[key].push_back(change)`
pub enqueue : ℕ → PendingChange → PendingQueue → PendingQueue
enqueue key c [] = (key, c ∷ []) ∷ []
enqueue key c (e ∷ q) = if e.0 == key then (key, e.1 ++ (c ∷ [])) ∷ q else e ∷ enqueue key c q

-- `pending_.erase(key)`
pub dequeue : ℕ → PendingQueue → PendingQueue
dequeue key [] = []
dequeue key (e ∷ q) = if e.0 == key then q else e ∷ dequeue key q

pub dequeue_all : List ℕ → PendingQueue → PendingQueue
unfolding dequeue
dequeue_all [] q = q
dequeue_all (key ∷ keys) q = dequeue_all keys (dequeue key q)

module _ {C W K D : Type 0} (b : Backend C W K D) where
  pub record CasHandler : Type 0 where
    pub cache : K
    pub disk : D
    pub pending : PendingQueue

  -- The result of a call, the handler after it, and the keys that `notify_` was called with.
  pub record Reply : Type 0 where
    pub result : CasResult
    pub handler : CasHandler
    pub notified : List ℕ

  abbrev pub refuse : CasHandler → CasResult → Reply
  refuse h r = record { result = r; handler = h; notified = [] }

  pub put_block : C → Local → ℕ → ℕ → C
  put_block chunk p id m = b.set_meta (b.set_block chunk p id) p m

  -- The comparison and the update of a chunk, in the cache or just read. A chunk in the cache is
  -- changed in place; one that was read is put into the cache.
  pub swap_in : CasHandler → ℕ → Local → ℕ → ℕ → ℕ → C → Reply
  unfolding enqueue put_block pack_idx
  swap_in h key p expected id m chunk =
      let cur = b.get_block chunk p in
      let cur_m = b.get_meta chunk p in
      if cur == expected
      then record {
        result = record { status = ok; actual_block = id; actual_meta = m };
        handler = record h {
          cache = b.put h.cache key (put_block chunk p id m);
          pending = enqueue key (record { idx = pack_idx p; block_id = id; meta = m }) h.pending;
        };
        notified = key ∷ [];
      }
      else refuse h (record { status = conflict; actual_block = cur; actual_meta = cur_m })

  abbrev pub position : ℤ → ℤ → ℤ → Local
  position x y z = record { lx = local_of x; ly = local_of y; lz = local_of z }

  -- The chunk that `casBlock` works on: the cached one, or the one that the store has.
  pub chunk_for : CasHandler → ℕ → Option C
  chunk_for h key = elim (b.cached h.cache key) [
    | some c ↦ some c
    | none ↦ elim (b.read_raw h.disk key) [
      | failed ↦ none
      | missing ↦ none
      | found w ↦ b.from_wire w
    ]
  ]

  pub cas_block : CasHandler → ℤ → ℤ → ℤ → ℕ → ℕ → ℕ → Reply
  unfolding chunk_for swap_in chunk_of local_of
  cas_block h x y z expected id m =
      let key = b.make_key (chunk_of x) (chunk_of y) (chunk_of z) in
      elim (chunk_for h key) [
        | none ↦ refuse h no_chunk
        | some chunk ↦ swap_in h key (position x y z) expected id m chunk
      ]

  -- The changes of one chunk, in the order of the queue.
  pub apply_changes : List PendingChange → C → C
  unfolding put_block unpack_idx
  apply_changes [] chunk = chunk
  apply_changes (c ∷ cs) chunk =
      apply_changes cs (put_block chunk (unpack_idx c.idx) c.block_id c.meta)

  -- The loop of `flush`: the store after it, and the deferred keys.
  pub flush_loop : D → PendingQueue → D × List ℕ
  unfolding apply_changes
  flush_loop d [] = (d, [])
  flush_loop d ((key, changes) ∷ q) = elim (b.read_raw d key) [
    | failed ↦ let r = flush_loop d q in (r.0, key ∷ r.1)
    | missing ↦ flush_loop d q
    | found w ↦ elim (b.from_wire w) [
      | none ↦ flush_loop d q
      | some chunk ↦ elim (b.write_raw d key (b.encode_to_wire (apply_changes changes chunk))) [
        | none ↦ let r = flush_loop d q in (r.0, key ∷ r.1)
        | some d' ↦ flush_loop d' q
      ]
    ]
  ]

  pub flush : CasHandler → ℕ × CasHandler
  unfolding flush_loop dequeue_all
  flush h =
      let r = flush_loop h.disk h.pending in
      (length h.pending - length r.1, record h { disk = r.0; pending = dequeue_all r.1 h.pending })

  unfoldable pub clear : CasHandler → CasHandler
  clear h = record h { pending = [] }
