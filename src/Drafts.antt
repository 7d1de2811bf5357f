-- ===== src/Drafts.antt =====
-- Drafts, src/draft_service.py: what the server accepts as a draft and how it validates one. An HTTPException
-- is a refusal, with its status and its detail.
pub mod Intake
pub mod Accepted
pub mod Bounds
pub mod Generation
pub mod Validation
pub mod Publishable
use clash_config_gen.Prelude.{
  ℕ, zero, suc, ◌+◌, ◌-◌, ◌*◌, ◌/◌, ◌%◌, ◌≤◌, ◌<◌, String, ◌<>◌, ◌≡◌, refl, sym, ap, ◌∙◌, ◌≢◌, ◌↔◌,
  ◌⊎◌, inl, inr, Bool, true, false, not, ◌&&◌, ◌||◌, Option, none, some, List, [], ◌∷◌, ◌++◌, map,
  arith, ◌==◌, eq_iff, eq_refl, ltb, leb, eqb, if◌then◌else◌, ltb→lt, lt→ltb, leb→le, le→leb,
  eqb_iff, Bool-cases, Option-cases, length, filter, count, any, all, find, length-append,
  filter-append, count-append, count-le-length, any-append, All, All-append,
}
use mathlib.Core.Path.{subst}
use clash_config_gen.Prelude.Dict.{Dict}
use clash_config_gen.Value.{Value}

pub data Outcome {ℓ} (A : Type ℓ) : Type ℓ where
  accepted : A → Outcome A
  refused : ℕ → String → Outcome A

infixl 5 ◌>>=◌ ◌>>◌
abbrev pub ◌>>=◌ {ℓ κ} : {A : Type ℓ} {B : Type κ} → Outcome A → (A → Outcome B) → Outcome B
accepted a >>= f = f a
refused status detail >>= f = refused status detail

abbrev pub ◌>>◌ {ℓ} : {B : Type ℓ} → Outcome (Unit {0}) → Outcome B → Outcome B
m >> k = m >>= λ _. k

-- `if wrong: raise HTTPException(status, detail)`
abbrev pub raise_if : Bool → ℕ → String → Outcome (Unit {0})
raise_if true status detail = refused status detail
raise_if false status detail = accepted tt

-- A draft, with all its keys.
pub record Draft : Type 0 where
  pub proxies : List (Dict Value)
  pub global_config : Dict Value
  pub custom_rules : List String
  pub custom_rule_providers : Dict (Dict Value)
  pub selected_rule_type : String
  pub import_sources : List (Dict Value)

-- What the normalization said of the nodes.
pub record DraftMeta : Type 0 where
  pub warnings : List String
  pub errors : List String

-- A predicate holds of what is accepted.
abbrev pub Accepts {ℓ} : {A : Type ℓ} → (A → Type 0) → Outcome A → Type 0
Accepts P (accepted a) = P a
Accepts P (refused status detail) = Unit {0}

pub then-Accepts {ℓ κ} :
    {A : Type ℓ} {B : Type κ} (P : A → Type 0) (Q : B → Type 0) (m : Outcome A) (f : A → Outcome B)
    → Accepts P m
    → ((a : A) → P a → Accepts Q (f a))
    → Accepts Q (m >>= f)
then-Accepts P Q (accepted a) f h g = g a h
then-Accepts P Q (refused status detail) f h g = tt

pub raise_if-Accepts {ℓ} :
    {A : Type ℓ} (Q : A → Type 0) (wrong : Bool) (status : ℕ) (detail : String) (k : Outcome A)
    → (wrong ≡ false → Accepts Q k)
    → Accepts Q (raise_if wrong status detail >> k)
raise_if-Accepts Q true status detail k g = tt
raise_if-Accepts Q false status detail k g = g refl

pub accepted-Accepts {ℓ} :
    {A : Type ℓ} (P : A → Type 0) (o : Outcome A) (a : A) → o ≡ accepted a → Accepts P o → P a
accepted-Accepts P o a e h = subst (Accepts P) e h

-- The check alone.
pub raise_if_lem :
    (P : Type 0) (wrong : Bool) (status : ℕ) (detail : String)
    → (wrong ≡ false → P)
    → Accepts (λ _. P) (raise_if wrong status detail)
raise_if_lem P true status detail g = tt
raise_if_lem P false status detail g = g refl
