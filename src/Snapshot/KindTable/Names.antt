-- ===== src/Snapshot/KindTable/Names.antt =====
-- Name answers what the pairs say of an id.
use blood_trail.Prelude.{
  ℕ, ◌+◌, ◌≤◌, ◌<◌, ◌≡◌, ◌≢◌, refl, sym, ap, ◌∙◌, false, List, [], ◌∷◌, none, ltb, leb, ◌==◌,
  if◌then◌else◌, arith, length, get_or, set, replicate, length-set, length-replicate,
  get_or-replicate, get_or-set_self, get_or-set_ne, Str, ℤ, pos, negsuc, inl, inr, Bool-cases,
}
use blood_trail.Snapshot.KindTable.{max_id, fill_names, new_kind_table, non_empty, name_of}

-- The name that the last pair of an id gives it, or the one before.
abbrev pub named : Str → List (ℤ × Str) → ℕ → Str
named before [] id = before
named before ((negsuc i, name) ∷ pairs) id = named before pairs id
named before ((pos i, name) ∷ pairs) id = named (if i == id then name else before) pairs id

get_or-set_either :
    (names : List Str) (i : ℕ) (name : Str) (id : ℕ)
    → id < length names
    → get_or (set names i name) id [] ≡ (if i == id then name else get_or names id [])
get_or-set_either names i name id p = elim (Bool-cases (i == id)) [
  | inl e ↦ let same : i ≡ id = ground arith in rw (e, same) (get_or-set_self names id name [] p)
  | inr e ↦ let other : i ≢ id = λ q. ground arith in rw e (get_or-set_ne names i id name [] other)
]

length-fill_names :
    (names : List Str) (pairs : List (ℤ × Str)) → length (fill_names names pairs) ≡ length names
length-fill_names names [] = refl
length-fill_names names ((negsuc i, name) ∷ pairs) = length-fill_names names pairs
length-fill_names names ((pos i, name) ∷ pairs) =
    length-fill_names (set names i name) pairs ∙ length-set names i name

get_or-fill_names :
    (names : List Str) (pairs : List (ℤ × Str)) (id : ℕ)
    → id < length names
    → get_or (fill_names names pairs) id [] ≡ named (get_or names id []) pairs id
get_or-fill_names names [] id p = refl
get_or-fill_names names ((negsuc i, name) ∷ pairs) id p = get_or-fill_names names pairs id p
get_or-fill_names names ((pos i, name) ∷ pairs) id p =
    get_or-fill_names (set names i name) pairs id (rw (length-set names i name) p)
    ∙ ap (λ s. named s pairs id) (get_or-set_either names i name id p)

max_id-le : (m : ℕ) (pairs : List (ℤ × Str)) → m ≤ max_id m pairs
max_id-le m [] = omega arith
max_id-le m ((negsuc i, name) ∷ pairs) = max_id-le m pairs
max_id-le m ((pos i, name) ∷ pairs) = ground (arith, max_id-le (if ltb m i then i else m) pairs)

-- Above the largest id no pair gives a name.
named_above :
    (m : ℕ) (pairs : List (ℤ × Str)) (id : ℕ) → max_id m pairs < id → named [] pairs id ≡ []
named_above m [] id p = refl
named_above m ((negsuc i, name) ∷ pairs) id p = named_above m pairs id p
named_above m ((pos i, name) ∷ pairs) id p =
    let low = max_id-le (if ltb m i then i else m) pairs in
    let other : (i == id) ≡ false = ground arith in
    rw other (named_above (if ltb m i then i else m) pairs id p)

name_at :
    (pairs : List (ℤ × Str)) (names : List Str) (id : ℕ)
    → length names ≡ max_id 0 pairs + 1
    → (id < length names → get_or names id [] ≡ named [] pairs id)
    → (if leb (length names) id then none else non_empty (get_or names id []))
      ≡ non_empty (named [] pairs id)
name_at pairs names id size h = elim (Bool-cases (leb (length names) id)) [
  | inl e ↦ rw (e, named_above 0 pairs id (ground arith))
  | inr e ↦ rw e (ap non_empty (h (ground arith)))
]

-- Name answers the name that the pairs give a kind id, and nothing for a negative id, one that no
-- pair names, or an empty name.
pub name_of-new_kind_table :
    (pairs : List (ℤ × Str))
    → ((id : ℕ) → name_of (new_kind_table pairs) (pos id) ≡ non_empty (named [] pairs id))
      × ((id : ℕ) → name_of (new_kind_table pairs) (negsuc id) ≡ none)
unfolding name_of new_kind_table
name_of-new_kind_table pairs = (
  λ id.
      let empty : List Str = replicate (max_id 0 pairs + 1) [] in
      let size = length-fill_names empty pairs ∙ length-replicate (max_id 0 pairs + 1) [] in
      name_at pairs (fill_names empty pairs) id size (λ p.
        get_or-fill_names empty pairs id (rw (sym (length-fill_names empty pairs)) p)
        ∙ ap (λ s. named s pairs id) (get_or-replicate (max_id 0 pairs + 1) id [])),
  λ id. refl,
)
