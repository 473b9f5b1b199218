-- ===== src/Traverse/Scratch/Laws.antt =====
-- The laws of the distance buffers.
use blood_trail.Prelude.{
  ℕ, zero, suc, ◌≤◌, ◌<◌, ◌≡◌, refl, List, [], ◌∷◌, none, some, ◌==◌, if◌then◌else◌, arith, length,
  get_or, length-set, get_or-set_self, get_or-set_ne, get_or-replicate, length-replicate,
}
use blood_trail.Traverse.Scratch.{Scratch, u32_mod, cleared, new_scratch, reset, get, put}

-- A buffer of n slots in which no mark is ahead of the epoch.
pub record IsScratch (n : ℕ) (s : Scratch) : Type 0 where
  pub marks : length s.mark ≡ n
  pub dists : length s.dist ≡ n
  pub epoch_range : s.epoch < u32_mod
  pub past : (v : ℕ) → get_or s.mark v 0 ≤ s.epoch

get_or-cleared : (xs : List ℕ) (v : ℕ) → get_or (cleared xs) v 0 ≡ 0
get_or-cleared [] v = refl
get_or-cleared (x ∷ xs) zero = refl
get_or-cleared (x ∷ xs) (suc v) = get_or-cleared xs v

length-cleared : (xs : List ℕ) → length (cleared xs) ≡ length xs
length-cleared [] = refl
length-cleared (x ∷ xs) = omega (arith, length-cleared xs)

pub new_scratch-IsScratch : (n : ℕ) → IsScratch n (new_scratch n)
unfolding new_scratch
new_scratch-IsScratch n = record {
  marks = length-replicate n 0;
  dists = length-replicate n 0;
  epoch_range = omega arith;
  past = λ v. omega (arith, get_or-replicate {A = ℕ} n v 0);
}

pub reset-IsScratch : (n : ℕ) (s : Scratch) → IsScratch n s → IsScratch n (reset s)
unfolding reset
reset-IsScratch n s h = record {
  marks = ground (arith, h.marks, length-cleared s.mark);
  dists = ground (arith, h.dists);
  epoch_range = ground (arith, h.epoch_range);
  past = λ v. ground (arith, h.epoch_range, h.past v, get_or-cleared s.mark v);
}

-- After a reset no distance is set, also when the 32-bit epoch wraps round.
pub get-reset : (n : ℕ) (s : Scratch) (v : ℕ) → IsScratch n s → get (reset s) v ≡ none
unfolding get reset
get-reset n s v h = ground (arith, h.epoch_range, h.past v, get_or-cleared s.mark v)

pub put-IsScratch :
    (n : ℕ) (s : Scratch) (v d : ℕ) → v < n → IsScratch n s → IsScratch n (put s v d)
unfolding put
put-IsScratch n s v d p h = record {
  marks = omega (arith, length-set s.mark v s.epoch, h.marks);
  dists = omega (arith, length-set s.dist v d, h.dists);
  epoch_range = h.epoch_range;
  past = λ w. ground (
    arith,
    h.past w,
    h.marks,
    get_or-set_self s.mark v s.epoch 0,
    get_or-set_ne s.mark v w s.epoch 0,
  );
}

-- A distance written to a node in range is read back there, and nothing else changes.
pub get-put :
    (n : ℕ) (s : Scratch) (v d w : ℕ)
    → v < n
    → IsScratch n s
    → get (put s v d) w ≡ (if w == v then some d else get s w)
unfolding get put
get-put n s v d w p h = ground (
  arith,
  h.marks,
  h.dists,
  get_or-set_self s.mark v s.epoch 0,
  get_or-set_ne s.mark v w s.epoch 0,
  get_or-set_self s.dist v d 0,
  get_or-set_ne s.dist v w d 0,
)
