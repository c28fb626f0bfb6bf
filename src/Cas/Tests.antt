-- ===== src/Cas/Tests.antt =====
-- Tests and examples for the compare-and-swap updates, on chunks and maps that are functions.
use gtnh_platform.Base.{
  ℕ, ◌≡◌, ◌<◌, refl, ◌⊎◌, ◌↔◌, Bool, ◌&&◌, Option, none, some, List, [], ◌∷◌, ◌++◌, length, arith,
  ◌==◌, if◌then◌else◌,
}
use gtnh_platform.Base.Int.{pos, negsuc}
use gtnh_platform.Cas.{
  Local, Backend, CasHandler, ReadResult, failed, found, PendingChange, chunk_of, local_of,
  pack_idx, unpack_idx, cas_block, chunk_for, swap_in, put_block, enqueue, flush,
}
use gtnh_platform.Cas.Queue.{OneEach, queued, changes_for}
use gtnh_platform.Cas.Updates.{CasCall, accepted, run, swapped_keys, run-queues}
use gtnh_platform.Cas.Flush.{unpack-pack, IsFailure, disk_after, flush-pending, flush-failed}

abbrev Chunk : Type 0
Chunk = Local → ℕ × ℕ

abbrev same_local : Local → Local → Bool
same_local p q = (p.lx == q.lx) && (p.ly == q.ly) && (p.lz == q.lz)

abbrev write_chunk : Chunk → Local → ℕ × ℕ → Chunk
write_chunk c p v = λ q. if same_local q p then v else c q

abbrev write_key : {A : Type 0} → (ℕ → A) → ℕ → A → ℕ → A
write_key m key v = λ j. if j == key then v else m j

-- A store whose keys are all chunk 0's.
abbrev functions : Backend Chunk Chunk (ℕ → Option Chunk) (ℕ → ReadResult Chunk)
functions = record {
  get_block = λ c p. (c p).0;
  get_meta = λ c p. (c p).1;
  set_block = λ c p id. write_chunk c p (id, (c p).1);
  set_meta = λ c p m. write_chunk c p ((c p).0, m);
  from_wire = some;
  encode_to_wire = λ c. c;
  cached = λ k key. k key;
  put = λ k key c. write_key k key (some c);
  make_key = λ x y z. 0;
  read_raw = λ d key. d key;
  write_raw = λ d key w. some (write_key d key (found w));
}

west_of_origin : (chunk_of (negsuc 0) ≡ negsuc 0) × (local_of (negsuc 0) ≡ 31)
unfolding chunk_of local_of
west_of_origin = (refl, refl)

abbrev change : PendingChange
change = record { idx = 33; block_id = 4; meta = 0 }

abbrev stones : Chunk
stones = λ p. (1, 0)

abbrev handler : CasHandler functions
handler = record {
  cache = λ key. none;
  disk = λ key. found stones;
  pending = (0, change ∷ []) ∷ [];
}

abbrev cut_off : CasHandler functions
cut_off = record handler { disk = λ key. failed }

handler-OneEach : OneEach handler.pending
unfolding queued
handler-OneEach = (refl, tt)

-- The second call wants the block that the first has replaced; the third is in another cell.
abbrev three_calls : List CasCall
three_calls =
    record { x = pos 1; y = pos 2; z = negsuc 0; expected = 1; id = 4; meta = 0 }
    ∷ record { x = pos 1; y = pos 2; z = negsuc 0; expected = 1; id = 5; meta = 0 }
    ∷ record { x = pos 7; y = pos 2; z = pos 0; expected = 1; id = 6; meta = 3 }
    ∷ []

run-queues_example :
    let r = run functions handler three_calls in
    OneEach r.0.pending
    × (r.0.disk ≡ handler.disk)
    × (changes_for 0 r.0.pending
        ≡ changes_for 0 handler.pending ++ accepted functions 0 handler three_calls)
    × (r.1 ≡ swapped_keys functions handler three_calls)
run-queues_example = run-queues functions handler three_calls 0 handler-OneEach

two_accepted : length (accepted functions 0 handler three_calls) ≡ 2
unfolding accepted cas_block chunk_for swap_in put_block chunk_of local_of enqueue pack_idx
two_accepted = refl

unpack-pack_example :
    (unpack_idx (pack_idx (record { lx = 1; ly = 0; lz = 1 })) ≡ record { lx = 1; ly = 0; lz = 1 })
    ↔ ((◌<◌ 1 16) × (◌≡◌ {A = ℕ} 0 0) × (◌≡◌ {A = ℕ} 1 0))
unpack-pack_example =
    unpack-pack (record { lx = 1; ly = 0; lz = 1 }) (omega arith) (omega arith) (omega arith)

flush-pending_example :
    (IsFailure functions (disk_after functions cut_off.disk []) 0 (change ∷ [])
      × (queued 0 (flush functions cut_off).1.pending ≡ none))
    ⊎ ((IsFailure functions (disk_after functions cut_off.disk []) 0 (change ∷ []) → ⊥)
        × (queued 0 (flush functions cut_off).1.pending ≡ some (change ∷ [])))
flush-pending_example = flush-pending functions cut_off [] [] 0 (change ∷ []) refl handler-OneEach

flush-failed_example :
    ((flush functions cut_off).0 ≡ 0)
    × ((flush functions cut_off).1.disk ≡ cut_off.disk)
    × ((flush functions cut_off).1.pending ≡ [])
flush-failed_example = flush-failed functions cut_off (λ key. refl)
