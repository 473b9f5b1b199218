-- ===== src/Traverse/Strategy/Free.antt =====
-- Without a memory limit, and with fuel, an enumeration ends without an error.
use blood_trail.Prelude.{
  ℕ, ◌≤◌, ◌≡◌, refl, ap, ◌∙◌, inl, inr, Bool, true, false, not, List, [], ◌∷◌, Option, some, length,
  ltb, ◌==◌, pos, map, Option-cases, Bool-cases, ℤ, arith, add64,
}
use mathlib.Core.Path.{subst}
use blood_trail.Snapshot.Bitset.Mask.{KindMask}
use blood_trail.Traverse.Scratch.{Scratch, get}
use blood_trail.Traverse.Adjacency.{View, Edge, neighbours, Degree}
use blood_trail.Traverse.Budget.{MemBudget, Store, add_bytes, over_limit, path_bytes}
use blood_trail.Traverse.Machine.{Turn, skip, arrive, onward, deposit, run, start}
use blood_trail.Traverse.Machine.Walks.{walks, steps, along, feed, Shallow}
use blood_trail.Traverse.Machine.Run.{run-walks}
use blood_trail.Traverse.Machine.Keeps.{Kept, Ends, run-Ends, deposit-cases}
use blood_trail.Traverse.Machine.Fuel.{tree, tree-le, steps-tree}
use blood_trail.Traverse.Machine.Prefix.{store_of}
use blood_trail.Traverse.Enumerate.{closer, pred8, enumerate, enumerate_turn}
use blood_trail.Traverse.Enumerate.Shortest.{edges_of, falls}
use blood_trail.Traverse.Enumerate.Results.{no_error, settle-some}

abbrev pub Free : Store → Type 0
Free st = st.budget.limit ≡ 0

abbrev pub Clean : Store × Bool → Type 0
Clean r = Free r.0 × (r.1 ≡ true)

-- It returns, without an error.
abbrev pub Fine : Option (Store × Bool) → Type 0
Fine o = (r : Store × Bool) × (o ≡ some r) × Clean r

add_bytes-free :
    (n : ℕ) (b : MemBudget)
    → b.limit ≡ 0
    → add_bytes n b ≡ some (record b { used = add64 b.used n })
unfolding add_bytes over_limit
add_bytes-free n b h = let e : over_limit n b ≡ false = ground (arith, h) in rw (e) refl

deposit-Free :
    (c : ℕ) (reversed : Bool) (nodes : List ℕ) (kinds : List ℤ) (st : Store)
    → Free st
    → Kept Free Clean (deposit c reversed nodes kinds st)
deposit-Free c reversed nodes kinds st h =
    let e = add_bytes-free (path_bytes (length nodes)) st.budget h in
    deposit-cases c reversed nodes kinds st (Kept Free Clean) (λ no_room. cc)
      (λ b paid_b.
        let same : b
            ≡ record st.budget { used = add64 st.budget.used (path_bytes (length nodes)) } =
          cc in
        let free : b.limit ≡ 0 = ap (λ (x : MemBudget). x.limit) same ∙ h in
        (λ _. (free, refl), λ _. free))

pub run-Fine :
    (turn : ℕ → ℕ → Turn) (c : ℕ) (reversed : Bool) (h u fuel : ℕ) (st : Store)
    → h ≤ 127
    → Shallow turn h 1 u
    → steps turn h 1 u ≤ fuel
    → Free st
    → Fine
        (run turn c reversed fuel (record { node = u; kind = pos 0; depth = 0 } ∷ []) (start u st))
run-Fine turn c reversed h u fuel st b sh enough free =
    let v = feed c reversed (map (along (u ∷ []) []) (walks turn h 1 u)) st in
    let e = run-walks turn c reversed h u fuel st (omega (arith, b)) sh enough ∙ settle-some v in
    (
      (store_of v, no_error v),
      e,
      subst (Ends Clean) e (
          run-Ends Free Clean turn c reversed (deposit-Free c reversed) (λ st f. (f, refl)) fuel
            (record { node = u; kind = pos 0; depth = 0 } ∷ []) (start u st) free),
    )

closer-length :
    (kinds : Option KindMask) (sc : Scratch) (d : ℕ) (es : List Edge)
    → length (closer kinds sc d es) ≤ length es
unfolding closer
closer-length kinds sc d [] = omega arith
closer-length kinds sc d ((w, k) ∷ es) = let ih = closer-length kinds sc d es in ground (arith, ih)

enumerate_turn-length :
    (s : View) (sc : Scratch) (kinds : Option KindMask) (forward : Bool) (w : ℕ)
    → Degree s w
    → (u len : ℕ) (es : List Edge) → enumerate_turn s sc kinds forward u len ≡ onward es
    → length es ≤ w
unfolding enumerate_turn
enumerate_turn-length s sc kinds forward w deg u len es e = elim (Option-cases (get sc u)) [
  | inl g ↦ let q : skip ≡ onward es = rw (g, enumerate_turn) at e in cc
  | inr (du, g) ↦ elim (Bool-cases (du == 0)) [
    | inl a ↦ elim (Bool-cases (ltb len 2)) [
      | inl b ↦ let q : skip ≡ onward es = rw (g, a, b, enumerate_turn) at e in cc
      | inr b ↦ let q : arrive ≡ onward es = rw (g, a, b, enumerate_turn) at e in cc
    ]
    | inr a ↦
        let q = ap edges_of (rw (g, a, enumerate_turn) at e) in
        subst (λ x. length x ≤ w) q
          (omega (arith, closer-length kinds sc (pred8 du) (neighbours s forward u), deg forward u))
  ]
]

pub enumerate-Fine :
    (fuel : ℕ) (s : View) (u d c w : ℕ) (sc : Scratch) (kinds : Option KindMask) (forward : Bool)
    (st : Store)
    → get sc u ≡ some d
    → d ≤ 127
    → Degree s w
    → tree w 127 ≤ fuel
    → Free st
    → Fine (enumerate fuel s u sc kinds c forward st)
unfolding enumerate
enumerate-Fine fuel s u d c w sc kinds forward st g b deg enough free =
    let turn = enumerate_turn s sc kinds forward in
    run-Fine turn c (not forward) d u fuel st b (falls s sc kinds forward d u 1 b g)
      (omega (
        arith,
        enough,
        tree-le w d 127 b,
        steps-tree turn w (enumerate_turn-length s sc kinds forward w deg) d 1 u,
      ))
      free
