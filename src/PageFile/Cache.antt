-- ===== src/PageFile/Cache.antt =====
-- The loops over the page cache.
use cs143_p.Base.{
  ℕ, zero, suc, ◌+◌, ◌≤◌, ◌<◌, ◌≡◌, refl, List, [], ◌∷◌, ◌++◌, append-nil, append_assoc,
  length-append, ◌==◌, none, some, true, false, arith, length, All, get_elem?, set, if◌then◌else◌,
  Bool-cases, inl, inr, ◌⊎◌,
}
use cs143_p.Ordered.{rank}
use cs143_p.Memory.{slt}
use cs143_p.PageFile.{Slot, holds, clear, find_slot, invalidate, victim, victim_loop}

-- How many slots hold the page.
unfoldable pub count_holding : ℕ → ℕ → List Slot → ℕ
count_holding fd pid [] = 0
count_holding fd pid (s ∷ cache) =
    if holds fd pid s then suc (count_holding fd pid cache) else count_holding fd pid cache

abbrev pub Avoids : ℕ → ℕ → List Slot → Type 0
Avoids fd pid cache = All (λ s. holds fd pid s ≡ false) cache

-- A search that fails: no slot holds the page.
pub find_slot-none :
    (fd pid i : ℕ) (cache : List Slot) → find_slot fd pid i cache ≡ none → Avoids fd pid cache
unfolding find_slot
find_slot-none fd pid i [] h = tt
find_slot-none fd pid i (s ∷ cache) h = elim (Bool-cases (holds fd pid s)) [
  | inl found ↦ absurd (ground arith)
  | inr other ↦ (other, find_slot-none fd pid (i + 1) cache (ground arith))
]

-- A search that succeeds: the index and the slot at it, which holds the page.
pub find_slot-some :
    (fd pid i j : ℕ) (cache : List Slot) {s : Slot}
    → find_slot fd pid i cache ≡ some (j, s)
    → (k : ℕ) × (j ≡ i + k) × (get_elem? cache k ≡ some s) × (holds fd pid s ≡ true)
unfolding find_slot
find_slot-some fd pid i j [] h = cc
find_slot-some fd pid i j (x ∷ cache) {s} h = elim (Bool-cases (holds fd pid x)) [
  | inl found ↦ (0, ground arith, ground arith, ground arith)
  | inr other ↦
      let (k, e, at, held) = find_slot-some fd pid (i + 1) j cache {s = s} (ground arith) in
      (suc k, omega arith, at, held)
]

pub Avoids-count :
    (fd pid : ℕ) (cache : List Slot) → Avoids fd pid cache → count_holding fd pid cache ≡ 0
unfolding count_holding
Avoids-count fd pid [] v = refl
Avoids-count fd pid (s ∷ cache) v = rw v.0 (Avoids-count fd pid cache v.1)

pub count-Avoids :
    (fd pid : ℕ) (cache : List Slot) → count_holding fd pid cache ≡ 0 → Avoids fd pid cache
unfolding count_holding
count-Avoids fd pid [] h = tt
count-Avoids fd pid (s ∷ cache) h = elim (Bool-cases (holds fd pid s)) [
  | inl found ↦ absurd (ground arith)
  | inr other ↦ (other, count-Avoids fd pid cache (ground arith))
]

-- The search in a cache where only slot `k` holds the page.
pub find_slot-set :
    (fd pid i k : ℕ) (cache : List Slot) (v : Slot)
    → Avoids fd pid cache
    → k < length cache
    → holds fd pid v ≡ true
    → find_slot fd pid i (set cache k v) ≡ some (i + k, v)
unfolding find_slot
find_slot-set fd pid i k [] v a h t = absurd (omega arith)
find_slot-set fd pid i zero (s ∷ cache) v a h t = rw t (ground arith)
find_slot-set fd pid i (suc k) (s ∷ cache) v a h t =
    rw (a.0, find_slot-set fd pid (i + 1) k cache v a.1 (omega arith) t) (ground arith)

pub All-set {ℓ} :
    (P : Slot → Type ℓ) (cache : List Slot) (k : ℕ) (v : Slot)
    → All P cache
    → P v
    → All P (set cache k v)
All-set P [] k v a p = tt
All-set P (s ∷ cache) zero v a p = (p, a.1)
All-set P (s ∷ cache) (suc k) v a p = (a.0, All-set P cache k v a.1 p)

pub All-get_elem? {ℓ} :
    (P : Slot → Type ℓ) (cache : List Slot) (k : ℕ) {s : Slot}
    → All P cache
    → get_elem? cache k ≡ some s
    → P s
All-get_elem? P [] k a h = cc
All-get_elem? P (x ∷ cache) zero {s} a h = let same : x ≡ s = ground arith in rw (← same) a.0
All-get_elem? P (x ∷ cache) (suc k) a h = All-get_elem? P cache k a.1 h

-- Writing a slot moves each count by what the slot held and what it holds.
pub count_holding-set :
    (fd pid : ℕ) (cache : List Slot) (k : ℕ) (v : Slot) {s : Slot}
    → get_elem? cache k ≡ some s
    → count_holding fd pid (set cache k v) + (if holds fd pid s then 1 else 0)
      ≡ count_holding fd pid cache + (if holds fd pid v then 1 else 0)
unfolding count_holding
count_holding-set fd pid [] k v h = cc
count_holding-set fd pid (x ∷ cache) zero v {s} h =
    let same : x ≡ s = ground arith in rw (← same) (ground arith)
count_holding-set fd pid (x ∷ cache) (suc k) v {s} h =
    let ih = count_holding-set fd pid cache k v {s = s} h in ground arith

-- Clearing the first slot that holds the page leaves none, if there was at most one.
pub invalidate-Avoids :
    (fd pid : ℕ) (cache : List Slot)
    → count_holding fd pid cache ≤ 1
    → Avoids fd pid (invalidate fd pid cache)
unfolding invalidate count_holding
invalidate-Avoids fd pid [] h = tt
invalidate-Avoids fd pid (s ∷ cache) h = elim (Bool-cases (holds fd pid s)) [
  | inl found ↦ rw found (ground arith, count-Avoids fd pid cache (ground arith))
  | inr other ↦ rw other (other, invalidate-Avoids fd pid cache (ground arith))
]

pub count_holding-invalidate :
    (d p fd pid : ℕ) (cache : List Slot)
    → count_holding d p (invalidate fd pid cache) ≤ count_holding d p cache
unfolding invalidate count_holding
count_holding-invalidate d p fd pid [] = omega arith
count_holding-invalidate d p fd pid (s ∷ cache) =
    ground (arith, count_holding-invalidate d p fd pid cache)

pub length-invalidate :
    (fd pid : ℕ) (cache : List Slot) → length (invalidate fd pid cache) ≡ length cache
unfolding invalidate
length-invalidate fd pid [] = refl
length-invalidate fd pid (s ∷ cache) = ground (arith, length-invalidate fd pid cache)

pub All-invalidate {ℓ} :
    (P : Slot → Type ℓ) (fd pid : ℕ) (cache : List Slot)
    → ((s : Slot) → P s → P (clear s))
    → All P cache
    → All P (invalidate fd pid cache)
unfolding invalidate
All-invalidate P fd pid [] c a = tt
All-invalidate P fd pid (s ∷ cache) c a = elim (Bool-cases (holds fd pid s)) [
  | inl found ↦ rw found (c s a.0, a.1)
  | inr other ↦ rw other (a.0, All-invalidate P fd pid cache c a.1)
]

-- The slot that read evicts: the first empty one, or one with the least time.
pub record IsVictim (cache : List Slot) (k : ℕ) (s : Slot) : Type 0 where
  pub in_cache : get_elem? cache k ≡ some s
  pub least : (s.last_accessed ≡ 0) ⊎ All (λ t. rank s.last_accessed ≤ rank t.last_accessed) cache

abbrev Least : Slot → List Slot → Type 0
Least c cache = All (λ t. rank c.last_accessed ≤ rank t.last_accessed) cache

Least-append_one :
    (c s : Slot) (pre : List Slot)
    → Least c pre
    → rank c.last_accessed ≤ rank s.last_accessed
    → Least c (pre ++ (s ∷ []))
Least-append_one c s [] a h = (h, tt)
Least-append_one c s (x ∷ pre) a h = (a.0, Least-append_one c s pre a.1 h)

Least-trans :
    (c d : Slot) (pre : List Slot)
    → rank d.last_accessed ≤ rank c.last_accessed
    → Least c pre
    → Least d pre
Least-trans c d [] h a = tt
Least-trans c d (x ∷ pre) h a = (omega arith, Least-trans c d pre h a.1)

get_elem?-middle :
    (pre : List Slot) (s : Slot) (cache : List Slot)
    → get_elem? (pre ++ (s ∷ cache)) (length pre) ≡ some s
get_elem?-middle [] s cache = refl
get_elem?-middle (x ∷ pre) s cache = get_elem?-middle pre s cache

victim_loop-IsVictim :
    (pre : List Slot) (i best : ℕ) (chosen : Slot) (cache : List Slot)
    → i ≡ length pre
    → get_elem? (pre ++ cache) best ≡ some chosen
    → Least chosen pre
    → IsVictim
        (pre ++ cache)
        (victim_loop i best chosen cache).0
        (victim_loop i best chosen cache).1
unfolding victim_loop
victim_loop-IsVictim pre i best chosen [] e at least = record {
  in_cache = at;
  least = inr (rw (append-nil pre) least);
}
victim_loop-IsVictim pre i best chosen (s ∷ cache) e at least =
    elim (Bool-cases (s.last_accessed == 0)) [
      | inl empty ↦
          rw empty
            (record { in_cache = rw e (get_elem?-middle pre s cache); least = inl (ground arith) })
      | inr full ↦ rw full (elim (Bool-cases (slt s.last_accessed chosen.last_accessed)) [
        | inl less ↦
            rw (less, ← append_assoc pre (s ∷ []) cache)
              (victim_loop-IsVictim (pre ++ (s ∷ [])) (i + 1) i s cache grown
                (rw (append_assoc pre (s ∷ []) cache, e) (get_elem?-middle pre s cache))
                (Least-append_one s s pre (Least-trans chosen s pre (ground arith) least)
                  (omega arith)))
        | inr more ↦
            rw (more, ← append_assoc pre (s ∷ []) cache)
              (victim_loop-IsVictim (pre ++ (s ∷ [])) (i + 1) best chosen cache grown
                (rw (append_assoc pre (s ∷ []) cache) at)
                (Least-append_one chosen s pre least (ground arith)))
      ])
    ]
  where
    grown : i + 1 ≡ length (pre ++ (s ∷ []))
    grown = omega (arith, length-append pre (s ∷ []))

-- In a cache with at least one slot, the slot that read evicts is one of the cache, at its index,
-- and it is empty or no slot has a smaller time.
pub victim-IsVictim :
    (cache : List Slot) → 0 < length cache → IsVictim cache (victim cache).0 (victim cache).1
unfolding victim
victim-IsVictim [] h = absurd (omega arith)
victim-IsVictim (s ∷ cache) h = victim_loop-IsVictim [] 0 0 s (s ∷ cache) refl refl tt
