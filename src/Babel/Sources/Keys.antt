-- ===== src/Babel/Sources/Keys.antt =====
-- The key of a source in internal/babel/source_table.go, and tables that hold each source once.
use th.Base.{
  ◌≡◌, sym, ap, ◌∙◌, inl, inr, true, false, [], ◌∷◌, Option, none, some, Bool-cases, bytes_eq,
  bytes_eq→eq, bytes_eq_refl,
}
use th.Base.Maps.{lookup}
use th.Proto.Addr.{prefix_eq}
use th.Babel.Source.{Source}
use th.Proto.Addr.Equality.{and_parts, and_true, prefix_eq_sound, prefix_eq_refl}
use th.Babel.Sources.{SourceKey, source_key, source_key_eq, SourceTable}

pub source_key_eq_sound : (j k : SourceKey) → source_key_eq j k ≡ true → j ≡ k
source_key_eq_sound j k h =
    let (p, q) = and_parts (prefix_eq j.prefix k.prefix) (bytes_eq j.router_id k.router_id) h in
    let a = prefix_eq_sound j.prefix k.prefix p in
    let b = bytes_eq→eq j.router_id k.router_id q in λ i. record { prefix = a i; router_id = b i }

pub source_key_eq_refl : (k : SourceKey) → source_key_eq k k ≡ true
source_key_eq_refl k = and_true (prefix_eq_refl k.prefix) (bytes_eq_refl k.router_id)

true-false : true ≡ false → ⊥
true-false e = cc

pub source_key_eq_differ : (j k : SourceKey) → source_key_eq j k ≡ false → source_key_eq k j ≡ false
source_key_eq_differ j k e = elim (Bool-cases (source_key_eq k j)) [
  | inl p ↦
      let same = source_key_eq_sound k j p in
      let self : source_key_eq j k ≡ true =
        ap (λ (x : SourceKey). source_key_eq j x) same ∙ source_key_eq_refl j in
      absurd (true-false (sym self ∙ e))
  | inr p ↦ p
]

-- Each source stands once, under its own key, as the entries of a map that only `Insert` filled do.
abbrev pub IsSourceTable : SourceTable → Type 0
IsSourceTable [] = Unit
IsSourceTable ((k, s) ∷ t) =
    (k ≡ source_key s) × (lookup source_key_eq k t ≡ none) × IsSourceTable t

pub none-some : (s : Source) → ◌≡◌ {A = Option Source} (some s) none → ⊥
none-some s e = cc
