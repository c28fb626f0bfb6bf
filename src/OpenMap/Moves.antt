-- ===== src/OpenMap/Moves.antt =====
-- What a move of an entry into an empty slot leaves: the same entries.
use gtnh_platform.Base.{
  ℕ, suc, ◌<◌, ◌≡◌, ◌≢◌, inl, inr, refl, sym, ap, ◌∙◌, some, List, length, get_elem?, set,
  length-set, true, false, arith,
}
use gtnh_platform.OpenMap.{Layout, next, MapEntry, on_path, empty_entry, shift}
use gtnh_platform.OpenMap.Slots.{within-get, set_same, set_other, occupied, occupied-set}
use gtnh_platform.OpenMap.Sound.{same_or}
use gtnh_platform.OpenMap.Search.{==_false, ==_true}

-- An entry stands in a table.
abbrev pub Has : {V : Type 0} → List (MapEntry V) → MapEntry V → Type 0
Has es e = (i : ℕ) × (get_elem? es i ≡ some e)

module _ {V : Type 0} (l : Layout) where
  -- Two tables with the same entries, as many slots, and as many occupied ones.
  pub record IsSame (es fs : List (MapEntry V)) : Type 0 where
    pub same_length : length fs ≡ length es
    pub same_occupied : occupied l fs ≡ occupied l es
    pub kept : (e : MapEntry V) → e.key ≢ l.sentinel → Has es e → Has fs e
    pub old : (e : MapEntry V) → e.key ≢ l.sentinel → Has fs e → Has es e

  pub IsSame-refl : (es : List (MapEntry V)) → IsSame es es
  IsSame-refl es = record {
    same_length = refl;
    same_occupied = refl;
    kept = λ e n h. h;
    old = λ e n h. h;
  }

  pub IsSame-trans : (es fs gs : List (MapEntry V)) → IsSame es fs → IsSame fs gs → IsSame es gs
  IsSame-trans es fs gs a b = record {
    same_length = b.same_length ∙ a.same_length;
    same_occupied = b.same_occupied ∙ a.same_occupied;
    kept = λ e n h. b.kept e n (a.kept e n h);
    old = λ e n h. a.old e n (b.old e n h);
  }

  -- One slot of the loop.
  module _ (v : V) (es : List (MapEntry V)) (hole nxt n : ℕ) {e : MapEntry V}
      (there : get_elem? es nxt ≡ some e) where
    pub shift-stop : e.key ≡ l.sentinel → shift l v es hole nxt (suc n) ≡ es
    unfolding shift
    shift-stop h = rw (shift, there, ==_true h) refl

    pub shift-move :
        e.key ≢ l.sentinel
        → on_path (l.hash e.key) hole nxt ≡ true
        → shift l v es hole nxt (suc n)
          ≡ shift l v (set (set es hole e) nxt (empty_entry l v)) nxt (next l nxt) n
    unfolding shift
    shift-move h on = rw (shift, there, ==_false h, on) refl

    pub shift-keep :
        e.key ≢ l.sentinel
        → on_path (l.hash e.key) hole nxt ≡ false
        → shift l v es hole nxt (suc n) ≡ shift l v es hole (next l nxt) n
    unfolding shift
    shift-keep h off = rw (shift, there, ==_false h, off) refl

  entry_eq : {e f : MapEntry V} → some e ≡ some f → e ≡ f
  entry_eq h = cc

  -- A move of the entry of one slot into an empty one.
  module _ (v : V) (es : List (MapEntry V)) (hole nxt : ℕ) (e f : MapEntry V) (apart : hole ≢ nxt)
      (there : get_elem? es nxt ≡ some e) (full : e.key ≢ l.sentinel)
      (here : get_elem? es hole ≡ some f) (empty : f.key ≡ l.sentinel) where
    abbrev pub moved : List (MapEntry V)
    moved = set (set es hole e) nxt (empty_entry l v)

    hole_lt : hole < length es
    hole_lt = within-get es hole here

    next_lt : nxt < length (set es hole e)
    next_lt = omega (arith, length-set es hole e, within-get es nxt there)

    pub at_hole : get_elem? moved hole ≡ some e
    at_hole =
        set_other (set es hole e) nxt hole (empty_entry l v) (λ z. apart (sym z))
        ∙ set_same es hole e hole_lt

    pub at_next : get_elem? moved nxt ≡ some (empty_entry l v)
    at_next = set_same (set es hole e) nxt (empty_entry l v) next_lt

    pub elsewhere : (j : ℕ) → j ≢ hole → j ≢ nxt → get_elem? moved j ≡ get_elem? es j
    elsewhere j a b =
        set_other (set es hole e) nxt j (empty_entry l v) (λ z. b (sym z))
        ∙ set_other es hole j e (λ z. a (sym z))

    move-kept : (g : MapEntry V) → g.key ≢ l.sentinel → Has es g → Has moved g
    move-kept g n (i, h) = elim (same_or i hole) [
      | inl y ↦
          let same : f ≡ g = entry_eq (sym here ∙ (ap (get_elem? es) (sym y) ∙ h)) in
          absurd (n (ap (λ (x : MapEntry V). x.key) (sym same) ∙ empty))
      | inr y ↦ elim (same_or i nxt) [
        | inl z ↦
            let same : some e ≡ some g = sym there ∙ (ap (get_elem? es) (sym z) ∙ h) in
            (hole, at_hole ∙ same)
        | inr z ↦ (i, elsewhere i y z ∙ h)
      ]
    ]

    move-old : (g : MapEntry V) → g.key ≢ l.sentinel → Has moved g → Has es g
    move-old g n (i, h) = elim (same_or i nxt) [
      | inl y ↦
          let same : empty_entry l v ≡ g =
            entry_eq (sym at_next ∙ (ap (get_elem? moved) (sym y) ∙ h)) in
          absurd (n (ap (λ (x : MapEntry V). x.key) (sym same)))
      | inr y ↦ elim (same_or i hole) [
        | inl z ↦
            let same : some e ≡ some g = sym at_hole ∙ (ap (get_elem? moved) (sym z) ∙ h) in
            (nxt, there ∙ same)
        | inr z ↦ (i, sym (elsewhere i z y) ∙ h)
      ]
    ]

    pub move-IsSame : IsSame es moved
    move-IsSame =
        let in_between : get_elem? (set es hole e) nxt ≡ some e =
          set_other es hole nxt e apart ∙ there in
        let first = occupied-set l es hole e here in
        let second = occupied-set l (set es hole e) nxt (empty_entry l v) in_between in
        record {
          same_length = length-set (set es hole e) nxt (empty_entry l v) ∙ length-set es hole e;
          same_occupied = ground (arith, first, second, empty, full);
          kept = move-kept;
          old = move-old;
        }
