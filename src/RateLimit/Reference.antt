-- ===== src/RateLimit/Reference.antt =====
-- The limiter against a reference that is one log of all accepted attempts.
use clash_config_gen.Prelude.{
  ℕ, ◌≤◌, String, ◌≡◌, refl, sym, ap, ◌∙◌, inl, inr, Bool, true, false, ◌&&◌, List, [], ◌∷◌, ◌++◌,
  arith, ◌==◌, eq_iff, eq_refl, leb, if◌then◌else◌, Bool-cases, length, count, All, All-append,
}
use clash_config_gen.RateLimit.Window.{
  is_fresh, Kept, count-expire, Kept-later, Kept-expire, Kept-append, count-Kept, Kept-nil,
}
use mathlib.Core.Path.{ap₂}
use clash_config_gen.Prelude.Dict.{contains}
use clash_config_gen.RateLimit.OrderedDict.Keys.{
  HasDistinctKeys, get_or_nil-put, put-HasDistinctKeys, get_or_nil-move_to_end,
  move_to_end-HasDistinctKeys, evict-within, get_or_nil-absent, length-HasDistinctKeys,
}
use clash_config_gen.RateLimit.OrderedDict.{
  Table, has_key, get_or_nil, put, without, move_to_end, All-without, All-put,
}
use clash_config_gen.RateLimit.{expire, client_key, max_keys, touch, register_rate_limited}

-- The name of a client in the log; all requests without an address are one client.
abbrev pub client_name : String → String
client_name client_ip = if client_ip == "" then "unknown" else client_ip

-- The accepted attempts of a client that are less than a window old.
abbrev pub recent_attempts : ℕ → ℕ → String → List (String × ℕ) → ℕ
recent_attempts window now client =
    count (λ (e : String × ℕ). e.0 == client && is_fresh window now e.1)

-- The reference: the answers to requests, and a log of the accepted ones from which nothing is dropped.
unfoldable pub reference_answers : ℕ → ℕ → List (String × ℕ) → List (String × ℕ) → List Bool
reference_answers limit window log [] = []
reference_answers limit window log ((client_ip, now) ∷ requests) =
    let limited = leb limit (recent_attempts window now (client_name client_ip) log) in
    limited
    ∷ reference_answers limit window
        (if limited then log else log ++ (client_name client_ip, now) ∷ []) requests

-- The answers of the code to the requests in turn.
unfoldable pub answers : ℕ → ℕ → List (String × ℕ) → Table → List Bool
unfolding register_rate_limited
answers limit window [] table = []
answers limit window ((client_ip, now) ∷ requests) table =
    let (limited, table') = register_rate_limited limit window client_ip now table in
    limited ∷ answers limit window requests table'

module _ (window : ℕ) where
  -- The times of a client in the log.
  abbrev times : String → List (String × ℕ) → List ℕ
  times k [] = []
  times k ((j, t) ∷ log) = if j == k then t ∷ times k log else times k log

  recent_attempts-times :
      (now : ℕ) (k : String) (log : List (String × ℕ))
      → recent_attempts window now k log ≡ count (is_fresh window now) (times k log)
  recent_attempts-times now k [] = refl
  recent_attempts-times now k ((j, t) ∷ log) = elim (Bool-cases (j == k)) [
    | inl e ↦ rw e (ground (arith, recent_attempts-times now k log))
    | inr e ↦ rw e (recent_attempts-times now k log)
  ]

  times-append :
      (k j : String) (now : ℕ) (log : List (String × ℕ))
      → times k (log ++ (j, now) ∷ []) ≡ (if j == k then times k log ++ now ∷ [] else times k log)
  times-append k j now [] = refl
  times-append k j now ((i, t) ∷ log) = elim (Bool-cases (i == k)) [
    | inl e ↦ rw e (elim (Bool-cases (j == k)) [
      | inl q ↦ rw q (ap (λ r. t ∷ r) (times-append k j now log ∙ rw q refl))
      | inr q ↦ rw q (ap (λ r. t ∷ r) (times-append k j now log ∙ rw q refl))
    ])
    | inr e ↦ rw e (times-append k j now log)
  ]

  -- The table and the log: at most one deque for each client, which holds what is not out of the window.
  record Agrees (clients : List String) (now : ℕ) (table : Table) (log : List (String × ℕ))
      : Type 0 where
    distinct : HasDistinctKeys table
    known : All (λ e. contains clients e.0 ≡ true) table
    kept : (k : String) → Kept window now (get_or_nil k table) (times k log)

  Agrees-later :
      (clients : List String) (now later : ℕ) (t : Table) (log : List (String × ℕ))
      → now ≤ later
      → Agrees clients now t log
      → Agrees clients later t log
  Agrees-later clients now later t log le a = record {
    distinct = a.distinct;
    known = a.known;
    kept = λ k. Kept-later window now later _ _ le (a.kept k);
  }

  Agrees-put :
      (clients : List String) (now : ℕ) (key : String) (d : List ℕ) (t : Table)
      (log log' : List (String × ℕ))
      → contains clients key ≡ true
      → Agrees clients now t log
      → Kept window now d (times key log')
      → ((k : String) → (key == k) ≡ false → times k log' ≡ times k log)
      → Agrees clients now (put key d t) log'
  Agrees-put clients now key d t log log' listed a kept others = record {
    distinct = put-HasDistinctKeys key d t a.distinct;
    known = All-put _ key d t listed a.known;
    kept = λ k. rw (get_or_nil-put key k d t) (elim (Bool-cases (key == k)) [
      | inl e ↦ rw (e, ← (eq_iff key k).0 e) kept
      | inr e ↦ rw (e, others k e) (a.kept k)
    ]);
  }

  Agrees-touch :
      (clients : List String) (now : ℕ) (key : String) (t : Table) (log : List (String × ℕ))
      → contains clients key ≡ true
      → Agrees clients now t log
      → Agrees clients now (touch key t) log
  unfolding touch
  Agrees-touch clients now key t log listed a = record {
    distinct = move_to_end-HasDistinctKeys key added added_agrees.distinct;
    known =
        unfold move_to_end in
        All-append _ (without key added) _ (All-without _ key added added_agrees.known)
          (listed, tt);
    kept = λ k. rw (get_or_nil-move_to_end key k added added_agrees.distinct) (added_agrees.kept k);
  }
    where
      added : Table
      added = if has_key key t then t else put key [] t

      empty : has_key key t ≡ false → Kept window now [] (times key log)
      empty e = let kept = a.kept key in rw (get_or_nil-absent key t e) at kept

      added_agrees : Agrees clients now added log
      added_agrees = elim (Bool-cases (has_key key t)) [
        | inl e ↦ rw (added, e) a
        | inr e ↦
            rw (added, e)
              (Agrees-put clients now key [] t log log listed a (empty e) (λ k ne. refl))
      ]

  -- One call: the answer is that of the reference, and the table agrees with its log.
  call-Agrees :
      (limit : ℕ) (clients : List String) (now : ℕ) (client_ip : String) (t : Table)
      (log : List (String × ℕ))
      → length clients ≤ 10000
      → contains clients (client_name client_ip) ≡ true
      → Agrees clients now t log
      → let limited = leb limit (recent_attempts window now (client_name client_ip) log) in
        let (answer, after) = register_rate_limited limit window client_ip now t in
        (answer ≡ limited)
        × Agrees clients now after
            (if limited then log else log ++ (client_name client_ip, now) ∷ [])
  unfolding register_rate_limited client_key
  call-Agrees limit clients now client_ip t log few listed a =
      let key : String = client_name client_ip in
      let same = Agrees-touch clients now key t log listed a in
      let deque = expire window now (get_or_nil key (touch key t)) in
      let pruned : Kept window now deque (times key log) =
        Kept-expire window now _ _ (same.kept key) in
      let counted : length deque ≡ recent_attempts window now key log =
        count-expire window now _ (same.kept key).sorted
        ∙ sym (count-Kept window now _ _ (same.kept key))
        ∙ sym (recent_attempts-times now key log) in
      let added : Agrees clients now (put key (deque ++ now ∷ []) (touch key t))
          (log ++ (key, now) ∷ []) =
        Agrees-put clients now key _ (touch key t) log (log ++ (key, now) ∷ []) listed same
          (rw (times-append key key now log, eq_refl key) (Kept-append window now _ _ pruned))
          (λ k ne. times-append k key now log ∙ rw ne refl) in
      let within = length-HasDistinctKeys clients _ added.distinct added.known in
      rw counted (elim (Bool-cases (leb limit (recent_attempts window now key log))) [
        | inl e ↦ rw e (
          refl,
          Agrees-put clients now key deque (touch key t) log log listed same pruned (λ k ne. refl),
        )
        | inr e ↦
            rw
              (
                e,
                evict-within max_keys (put key (deque ++ now ∷ []) (touch key t))
                    (omega (arith, within, few)),
              )
              (refl, added)
      ])

  -- The clock never goes back.
  abbrev pub IsMonotone : ℕ → List (String × ℕ) → Type 0
  IsMonotone start [] = Unit {0}
  IsMonotone start ((_, now) ∷ requests) = (start ≤ now) × IsMonotone now requests

  run-Agrees :
      (limit start : ℕ) (clients : List String) (requests : List (String × ℕ)) (t : Table)
      (log : List (String × ℕ))
      → length clients ≤ 10000
      → All (λ r. contains clients (client_name r.0) ≡ true) requests
      → IsMonotone start requests
      → Agrees clients start t log
      → answers limit window requests t ≡ reference_answers limit window log requests
  unfolding answers reference_answers
  run-Agrees limit start clients [] t log few listed m a = refl
  run-Agrees limit start clients ((client_ip, now) ∷ requests) t log few listed m a =
      let one =
        call-Agrees limit clients now client_ip t log few listed.0
          (Agrees-later clients start now t log m.0 a) in
      ap₂ ◌∷◌ one.0 (run-Agrees limit now clients requests _ _ few listed.1 m.1 one.1)

  -- On requests of at most 10000 clients, with a clock that never goes back, the limiter, which keeps a deque for each
  -- client, drops old attempts and evicts clients, gives the answers of a reference that logs every accepted attempt
  -- and limits a client by its attempts in the log that are less than a window old.
  pub answers-register_rate_limited :
      (limit start : ℕ) (clients : List String) (requests : List (String × ℕ))
      → length clients ≤ 10000
      → All (λ r. contains clients (client_name r.0) ≡ true) requests
      → IsMonotone start requests
      → answers limit window requests [] ≡ reference_answers limit window [] requests
  answers-register_rate_limited limit start clients requests few listed m =
      run-Agrees limit start clients requests [] [] few listed m (
        unfold get_or_nil in
        record { distinct = tt; known = tt; kept = λ k. Kept-nil window start })
