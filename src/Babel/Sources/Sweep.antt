-- ===== src/Babel/Sources/Sweep.antt =====
-- The sweep of old sources in internal/babel/speaker.go.
use th.Base.{
  ℕ, ◌≡◌, refl, sym, ap, ◌∙◌, inl, inr, Bool, true, false, ◌&&◌, ◌||◌, List, [], ◌∷◌, Option, none,
  some, if◌then◌else◌, Bool-cases,
}
use th.Base.Maps.{lookup, lookup-remove}
use th.Proto.Addr.{Prefix}
use th.Babel.Source.{Source}
use th.Babel.Sources.{
  SourceKey, source_key, source_key_eq, SourceTable, lookup_source, remove_source, all_sources,
  is_old, remove_old, sweep_sources,
}
use th.Babel.Sources.Keys.{source_key_eq_sound, source_key_eq_refl, IsSourceTable, none-some}

if-or :
    (a b : Bool) (o : Option Source)
    → (if b then none else if a then none else o) ≡ (if a || b then none else o)
if-or true true o = refl
if-or true false o = refl
if-or false b o = refl

both_false : (a : Bool) → ((a && false) || false) ≡ false
both_false true = refl
both_false false = refl

old_then_none :
    (a : Bool) (s : Source)
    → (if (a && true) || false then none else some s) ≡ (if a then none else some s)
old_then_none true s = refl
old_then_none false s = refl

not_this :
    (a b : Bool) (o : Option Source)
    → (if (a && false) || b then none else o) ≡ (if b then none else o)
not_this true b o = refl
not_this false b o = refl

abbrev any_old : ℕ → SourceKey → List Source → Bool
any_old now k [] = false
any_old now k (s ∷ sources) =
    (is_old now s && source_key_eq (source_key s) k) || any_old now k sources

lookup-remove_old :
    (now : ℕ) (k : SourceKey) (l : List Source) (t : SourceTable)
    → lookup source_key_eq k (remove_old now l t)
      ≡ (if any_old now k l then none else lookup source_key_eq k t)
unfolding remove_old remove_source
lookup-remove_old now k [] t = refl
lookup-remove_old now k (s ∷ l) t = elim (Bool-cases (is_old now s)) [
  | inl e ↦
      let law =
        lookup-remove source_key_eq source_key_eq_sound source_key_eq_refl k (source_key s) t in
      rw e (
        lookup-remove_old now k l (remove_source t s.prefix s.router_id)
        ∙ rw law
            (if-or (source_key_eq (source_key s) k) (any_old now k l) (lookup source_key_eq k t)))
  | inr e ↦ rw e (lookup-remove_old now k l t)
]

-- The source, unless it is old.
abbrev pub if_not_old : ℕ → Option Source → Option Source
if_not_old now none = none
if_not_old now (some s) = if is_old now s then none else some s

any_old-none :
    (now : ℕ) (k : SourceKey) (t : SourceTable)
    → IsSourceTable t
    → lookup source_key_eq k t ≡ none
    → any_old now k (all_sources t) ≡ false
unfolding lookup all_sources
any_old-none now k [] h e = refl
any_old-none now k ((j, s) ∷ t) (g, d, h) e = elim (Bool-cases (source_key_eq j k)) [
  | inl p ↦ absurd (none-some s (rw p at e))
  | inr p ↦
      let q : source_key_eq (source_key s) k ≡ false =
        ap (λ (x : SourceKey). source_key_eq x k) (sym g) ∙ p in
      rw q (rw (any_old-none now k t h (rw p at e)) (both_false (is_old now s)))
]

any_old-lookup :
    (now : ℕ) (k : SourceKey) (t : SourceTable)
    → IsSourceTable t
    → (if any_old now k (all_sources t) then none else lookup source_key_eq k t)
      ≡ if_not_old now (lookup source_key_eq k t)
unfolding lookup all_sources
any_old-lookup now k [] h = refl
any_old-lookup now k ((j, s) ∷ t) (g, d, h) =
    let same = ap (λ (x : SourceKey). source_key_eq x k) (sym g) in
    elim (Bool-cases (source_key_eq j k)) [
      | inl p ↦
          let q : source_key_eq (source_key s) k ≡ true = same ∙ p in
          let unique : lookup source_key_eq k t ≡ none =
            ap (λ (x : SourceKey). lookup source_key_eq x t) (sym (source_key_eq_sound j k p))
            ∙ d in
          let rest = any_old-none now k t h unique in
          rw p (rw q (rw rest (old_then_none (is_old now s) s)))
      | inr p ↦
          let q : source_key_eq (source_key s) k ≡ false = same ∙ p in
          rw p (
            rw q (
              not_this (is_old now s) (any_old now k (all_sources t)) (lookup source_key_eq k t)
              ∙ any_old-lookup now k t h))
    ]

-- Where each source stands once and under its own key, a key leads to the same source after the sweep
-- as before, unless that source is old; then it leads to none.
pub lookup_source-sweep_sources :
    (now : ℕ) (t : SourceTable) (pfx : Prefix) (rid : List ℕ)
    → IsSourceTable t
    → lookup_source (sweep_sources now t) pfx rid ≡ if_not_old now (lookup_source t pfx rid)
unfolding lookup_source sweep_sources
lookup_source-sweep_sources now t pfx rid h =
    let k : SourceKey = record { prefix = pfx; router_id = rid } in
    lookup-remove_old now k (all_sources t) t ∙ any_old-lookup now k t h
