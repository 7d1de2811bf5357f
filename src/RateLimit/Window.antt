-- ===== src/RateLimit/Window.antt =====
-- What the deque of a client holds of all its attempts.
use clash_config_gen.Prelude.{
  ℕ, suc, ◌+◌, ◌≤◌, ◌<◌, ◌≡◌, refl, sym, ap, ◌∙◌, inl, inr, Bool, not, List, [], ◌∷◌, ◌++◌, arith,
  leb, leb→le, Bool-cases, length, count, count-append, All, All-append,
}
use mathlib.Core.List.{append_assoc}
use clash_config_gen.RateLimit.{expire}

-- An attempt at `t` counts at `now`: it is less than a window old.
abbrev pub is_fresh : ℕ → ℕ → ℕ → Bool
is_fresh window now t = not (leb (t + window) now)

abbrev pub AtMost : ℕ → List ℕ → Type 0
AtMost now = All (λ t. t ≤ now)

-- Times in order of arrival.
abbrev pub IsChronological : List ℕ → Type 0
IsChronological [] = Unit {0}
IsChronological (t ∷ ts) = All (λ u. t ≤ u) ts × IsChronological ts

All-map {ℓ} :
    {A : Type ℓ} {P Q : A → Type 0} → ((a : A) → P a → Q a) → (xs : List A) → All P xs → All Q xs
All-map f [] h = tt
All-map f (x ∷ xs) h = (f x h.0, All-map f xs h.1)

IsChronological-append :
    (now : ℕ) (ts : List ℕ) → IsChronological ts → AtMost now ts → IsChronological (ts ++ now ∷ [])
IsChronological-append now [] h k = (tt, tt)
IsChronological-append now (t ∷ ts) h k =
    (All-append (λ u. t ≤ u) ts (now ∷ []) h.0 (k.0, tt), IsChronological-append now ts h.1 k.1)

module _ (window : ℕ) where
  -- What the deque `d` holds of the history `h`: all but attempts that are out of the window.
  pub record Kept (now : ℕ) (d h : List ℕ) : Type 0 where
    pub dropped : List ℕ
    pub parts : h ≡ dropped ++ d
    pub old : All (λ t. t + window ≤ now) dropped
    pub recent : AtMost now d
    pub sorted : IsChronological d

  count-fresh_old :
      (now : ℕ) (ts : List ℕ) → All (λ t. t + window ≤ now) ts → count (is_fresh window now) ts ≡ 0
  count-fresh_old now [] h = refl
  count-fresh_old now (t ∷ ts) h = ground (arith, count-fresh_old now ts h.1)

  count-fresh_new :
      (now : ℕ) (ts : List ℕ)
      → All (λ t. now < t + window) ts
      → count (is_fresh window now) ts ≡ length ts
  count-fresh_new now [] h = refl
  count-fresh_new now (t ∷ ts) h = ground (arith, count-fresh_new now ts h.1)

  pub count-expire :
      (now : ℕ) (ts : List ℕ)
      → IsChronological ts
      → length (expire window now ts) ≡ count (is_fresh window now) ts
  unfolding expire
  count-expire now [] h = refl
  count-expire now (t ∷ ts) h = elim (Bool-cases (leb (t + window) now)) [
    | inl old ↦ rw old (count-expire now ts h.1)
    | inr new ↦
        rw new (ap suc (sym (count-fresh_new now ts (All-map (λ u le. ground arith) ts h.0))))
  ]

  pub Kept-later : (now later : ℕ) (d h : List ℕ) → now ≤ later → Kept now d h → Kept later d h
  Kept-later now later d h le k = record {
    dropped = k.dropped;
    parts = k.parts;
    old = All-map (λ t p. omega arith) k.dropped k.old;
    recent = All-map (λ t p. omega arith) d k.recent;
    sorted = k.sorted;
  }

  pub Kept-expire : (now : ℕ) (d h : List ℕ) → Kept now d h → Kept now (expire window now d) h
  unfolding expire
  Kept-expire now [] h k = k
  Kept-expire now (t ∷ d) h k = elim (Bool-cases (leb (t + window) now)) [
    | inl old ↦ rw old (
        Kept-expire now d h (record {
          dropped = k.dropped ++ t ∷ [];
          parts = k.parts ∙ sym (append_assoc k.dropped (t ∷ []) d);
          old = All-append (λ t. t + window ≤ now) k.dropped (t ∷ []) k.old (leb→le _ _ old, tt);
          recent = k.recent.1;
          sorted = k.sorted.1;
        }))
    | inr new ↦ rw new k
  ]

  pub Kept-append :
      (now : ℕ) (d h : List ℕ) → Kept now d h → Kept now (d ++ now ∷ []) (h ++ now ∷ [])
  Kept-append now d h k = record {
    dropped = k.dropped;
    parts = ap (λ l. l ++ now ∷ []) k.parts ∙ append_assoc k.dropped d (now ∷ []);
    old = k.old;
    recent = All-append (λ t. t ≤ now) d (now ∷ []) k.recent (omega arith, tt);
    sorted = IsChronological-append now d k.sorted k.recent;
  }

  pub count-Kept :
      (now : ℕ) (d h : List ℕ)
      → Kept now d h
      → count (is_fresh window now) h ≡ count (is_fresh window now) d
  count-Kept now d h k =
      rw
        (
          k.parts,
          count-append (is_fresh window now) k.dropped d,
          count-fresh_old now k.dropped k.old,
        )
        (omega arith)

  pub Kept-nil : (now : ℕ) → Kept now [] []
  Kept-nil now = record { dropped = []; parts = refl; old = tt; recent = tt; sorted = tt }
