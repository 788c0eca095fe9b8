-- ===== src/Competition/Ranking/Order.antt =====
-- The order of `_sort_candidates` under the 'dense' policy, against an order of its own.
use vmlc_backend.Prelude.{
  ℕ, ◌≡◌, refl, Bool, true, false, ◌&&◌, not, ◌||◌, ltb, Option, none, some, arith,
}
use vmlc_backend.Prelude.Int.{ℤ, eq_ℤ, ltb_ℤ}
use vmlc_backend.Competition.Ranking.{
  Score, ScoreData, score_key, time_le, dense_le, score_eq, same_time,
}

-- The same score and the same time used.
abbrev pub same_place : ScoreData → ScoreData → Bool
same_place d p = score_eq d.score p.score && same_time d.time_used p.time_used

-- The higher score; absent is lower than every number.
abbrev pub is_higher : Score → Score → Bool
is_higher Score.absent t = false
is_higher (Score.points s) Score.absent = true
is_higher (Score.points s) (Score.points t) = ltb t s

-- Less time; no time is more than every number.
abbrev pub is_faster : Option ℤ → Option ℤ → Bool
is_faster none t = false
is_faster (some s) none = true
is_faster (some s) (some t) = ltb_ℤ s t

-- A higher score, or a score that is not lower in less time.
abbrev pub beats : ScoreData → ScoreData → Bool
beats d p =
    is_higher d.score p.score
    || (not (is_higher p.score d.score) && is_faster d.time_used p.time_used)

is_higher-key : (s t : Score) → is_higher s t ≡ ltb_ℤ (score_key t) (score_key s)
is_higher-key Score.absent Score.absent = refl
is_higher-key Score.absent (Score.points t) = ground arith
is_higher-key (Score.points s) Score.absent = ground arith
is_higher-key (Score.points s) (Score.points t) = ground arith

not_faster : (s t : Option ℤ) → time_le s t ≡ true → is_faster t s ≡ false
not_faster none none h = refl
not_faster none (some t) h = absurd (cc)
not_faster (some s) none h = refl
not_faster (some s) (some t) h = ground arith

faster_or_same : (s t : Option ℤ) → time_le s t ≡ true → is_faster s t ≡ not (same_time t s)
faster_or_same none none h = refl
faster_or_same none (some t) h = absurd (cc)
faster_or_same (some s) none h = refl
faster_or_same (some s) (some t) h = ground arith

score_eq-key : (s t : Score) → score_eq s t ≡ eq_ℤ (score_key s) (score_key t)
score_eq-key Score.absent Score.absent = refl
score_eq-key Score.absent (Score.points t) = ground arith
score_eq-key (Score.points s) Score.absent = ground arith
score_eq-key (Score.points s) (Score.points t) = ground arith

time_le-total : (s t : Option ℤ) → time_le s t ≡ false → time_le t s ≡ true
time_le-total none none h = refl
time_le-total none (some t) h = refl
time_le-total (some s) none h = absurd (cc)
time_le-total (some s) (some t) h = ground arith

time_le_trans : (s t u : Option ℤ) → time_le s t ≡ true → time_le t u ≡ true → time_le s u ≡ true
time_le_trans none t none h k = refl
time_le_trans (some s) t none h k = refl
time_le_trans none none (some u) h k = k
time_le_trans none (some t) (some u) h k = absurd (cc)
time_le_trans (some s) none (some u) h k = absurd (cc)
time_le_trans (some s) (some t) (some u) h k = ground arith

-- Three times in order, of which the outer two are the same.
time_squeeze :
    (s t u : Option ℤ)
    → time_le s t ≡ true
    → time_le t u ≡ true
    → same_time u s ≡ true
    → same_time t s ≡ true
time_squeeze none none u h k e = refl
time_squeeze none (some t) u h k e = absurd (cc)
time_squeeze (some s) none none h k e = absurd (cc)
time_squeeze (some s) none (some u) h k e = absurd (cc)
time_squeeze (some s) (some t) none h k e = absurd (cc)
time_squeeze (some s) (some t) (some u) h k e = ground arith

same_time_trans : (s t u : Option ℤ) → same_time t s ≡ true → same_time u t ≡ same_time u s
same_time_trans none none u h = refl
same_time_trans none (some t) u h = absurd (cc)
same_time_trans (some s) none u h = absurd (cc)
same_time_trans (some s) (some t) none h = refl
same_time_trans (some s) (some t) (some u) h = ground arith

module _ (x y : ℕ × ScoreData) where
  pub dense_le-total : dense_le x y ≡ false → dense_le y x ≡ true
  dense_le-total h = ground (arith, time_le-total x.1.time_used y.1.time_used)

  pub dense_le-beats : dense_le x y ≡ true → beats y.1 x.1 ≡ false
  dense_le-beats h = ground (
    arith,
    is_higher-key y.1.score x.1.score,
    is_higher-key x.1.score y.1.score,
    not_faster x.1.time_used y.1.time_used,
  )

  -- Of two candidates in order, the first beats the second unless they are tied.
  pub beats-same_place : dense_le x y ≡ true → beats x.1 y.1 ≡ not (same_place y.1 x.1)
  beats-same_place h = ground (
    arith,
    is_higher-key y.1.score x.1.score,
    is_higher-key x.1.score y.1.score,
    score_eq-key y.1.score x.1.score,
    faster_or_same x.1.time_used y.1.time_used,
  )

  module _ (z : ℕ × ScoreData) where
    pub dense_le_trans : dense_le x y ≡ true → dense_le y z ≡ true → dense_le x z ≡ true
    dense_le_trans h k = ground (arith, time_le_trans x.1.time_used y.1.time_used z.1.time_used)

    pub squeeze :
        dense_le x y ≡ true
        → dense_le y z ≡ true
        → same_place z.1 x.1 ≡ true
        → same_place y.1 x.1 ≡ true
    squeeze h k e = ground (
      arith,
      time_squeeze x.1.time_used y.1.time_used z.1.time_used,
      score_eq-key y.1.score x.1.score,
      score_eq-key z.1.score x.1.score,
    )

    pub same_place_trans : same_place y.1 x.1 ≡ true → same_place z.1 y.1 ≡ same_place z.1 x.1
    same_place_trans h = ground (
      arith,
      same_time_trans x.1.time_used y.1.time_used z.1.time_used,
      score_eq-key y.1.score x.1.score,
      score_eq-key z.1.score x.1.score,
      score_eq-key z.1.score y.1.score,
    )
