-- ===== src/Babel/Routes/Laws.antt =====
-- What the operations of internal/babel/route_table.go do to the route that a key leads to.
use th.Base.{
  ◌≡◌, refl, sym, ap, ◌∙◌, inl, inr, Bool, true, false, ◌||◌, List, [], ◌∷◌, Option, none, some,
  All, if◌then◌else◌, Bool-cases, arith,
}
use th.Base.Maps.{lookup, insert, remove, lookup-insert, lookup-remove}
use th.Proto.Addr.{Addr, addr_eq, Prefix, prefix_eq}
use th.Proto.Addr.Equality.{
  addr_eq_sound, addr_eq_refl, and_parts, and_true, prefix_eq_sound, prefix_eq_refl,
}
use th.Babel.Routes.{
  Neighbour, Route, RouteKey, key_eq, key, neighbour_address, RouteTable, lookup_route,
  insert_route, remove_route, is_from, routes_from, remove_all, remove_neighbour,
  lookup_by_neighbour,
}

key_eq_sound : (j k : RouteKey) → key_eq j k ≡ true → j ≡ k
key_eq_sound j k h =
    let (p, q) = and_parts (prefix_eq j.prefix k.prefix) (addr_eq j.neighbour k.neighbour) h in
    let a = prefix_eq_sound j.prefix k.prefix p in
    let b = addr_eq_sound j.neighbour k.neighbour q in λ i. record { prefix = a i; neighbour = b i }

key_eq_refl : (k : RouteKey) → key_eq k k ≡ true
key_eq_refl k = and_true (prefix_eq_refl k.prefix) (addr_eq_refl k.neighbour)

none-some : (r : Route) → ◌≡◌ {A = Option Route} none (some r) → ⊥
none-some r e = cc

false-true : false ≡ true → ⊥
false-true e = cc

or_true : (a : Bool) → (a || true) ≡ true
or_true true = refl
or_true false = refl

-- `Insert` changes what its route's own key leads to, and no other key.
pub lookup_by_neighbour-insert_route :
    (t : RouteTable) (r : Route) (pfx : Prefix) (n : Option Neighbour)
    → lookup_by_neighbour (insert_route t r) pfx n ≡ (
        if key_eq (key r) (record { prefix = pfx; neighbour = neighbour_address n })
        then some r
        else lookup_by_neighbour t pfx n)
unfolding lookup_by_neighbour insert_route
lookup_by_neighbour-insert_route t r pfx n =
    lookup-insert key_eq key_eq_sound key_eq_refl
      (record { prefix = pfx; neighbour = neighbour_address n }) (key r) r t

-- Whether one of the routes has the key.
abbrev pub has_key : RouteKey → List Route → Bool
has_key k [] = false
has_key k (r ∷ rs) = key_eq (key r) k || has_key k rs

if-or :
    (a b : Bool) (x : Option Route)
    → (if b then none else if a then none else x) ≡ (if a || b then none else x)
if-or true true x = refl
if-or true false x = refl
if-or false true x = refl
if-or false false x = refl

lookup-remove_all :
    (k : RouteKey) (t : RouteTable) (rs : List Route)
    → lookup key_eq k (remove_all t rs) ≡ (if has_key k rs then none else lookup key_eq k t)
unfolding remove_all remove_route
lookup-remove_all k t [] = refl
lookup-remove_all k t (r ∷ rs) =
    lookup-remove_all k (remove key_eq (key r) t) rs
    ∙ rw (lookup-remove key_eq key_eq_sound key_eq_refl k (key r) t)
        (if-or (key_eq (key r) k) (has_key k rs) (lookup key_eq k t))

-- Each route stands under its own key, as `Insert` puts it there.
abbrev pub IsKeyed : RouteTable → Type 0
IsKeyed t = All (λ (e : RouteKey × Route). key e.1 ≡ e.0) t

insert_route-IsKeyed : (t : RouteTable) (r : Route) → IsKeyed t → IsKeyed (insert_route t r)
unfolding insert_route insert
insert_route-IsKeyed [] r h = (refl, tt)
insert_route-IsKeyed ((j, s) ∷ t) r (g, h) = elim (Bool-cases (key_eq j (key r))) [
  | inl e ↦ rw e (sym (key_eq_sound j (key r) e), h)
  | inr e ↦ rw e (g, insert_route-IsKeyed t r h)
]

routes_from-has_key :
    (t : RouteTable) (n : Neighbour) (k : RouteKey) (r : Route)
    → IsKeyed t
    → lookup key_eq k t ≡ some r
    → is_from n r ≡ true
    → has_key k (routes_from t n) ≡ true
unfolding lookup routes_from
routes_from-has_key [] n k r h e f = absurd (ground (arith, e))
routes_from-has_key ((j, s) ∷ t) n k r (g, h) e f = elim (Bool-cases (key_eq j k)) [
  | inl p ↦
      let found : some s ≡ some r = rw p at e in
      let same : s ≡ r = cc in
      let from : is_from n s ≡ true = ap (λ (x : Route). is_from n x) same ∙ f in
      let hit : key_eq (key s) k ≡ true = ap (λ (x : RouteKey). key_eq x k) g ∙ p in
      rw from (rw hit refl)
  | inr p ↦
      let ih = routes_from-has_key t n k r h (rw p at e) f in
      elim (Bool-cases (is_from n s)) [
        | inl q ↦ rw q (rw ih (or_true (key_eq (key s) k)))
        | inr q ↦ rw q ih
      ]
]

pub lookup_route-remove_neighbour :
    (t : RouteTable) (n : Neighbour) (pfx : Prefix) (a : Addr)
    → lookup_route (remove_neighbour t n) pfx a ≡ (
        if has_key (record { prefix = pfx; neighbour = a }) (routes_from t n)
        then none
        else lookup_route t pfx a)
unfolding lookup_route remove_neighbour
lookup_route-remove_neighbour t n pfx a =
    lookup-remove_all (record { prefix = pfx; neighbour = a }) t (routes_from t n)

-- Where each route stands under its own key, a route that is found after `RemoveNeighbour` was found
-- before and is not of that neighbour.
pub remove_neighbour-is_from :
    (t : RouteTable) (n : Neighbour) (pfx : Prefix) (a : Addr) (r : Route)
    → IsKeyed t
    → lookup_route (remove_neighbour t n) pfx a ≡ some r
    → (lookup_route t pfx a ≡ some r) × (is_from n r ≡ false)
unfolding lookup_route
remove_neighbour-is_from t n pfx a r h e =
    let k : RouteKey = record { prefix = pfx; neighbour = a } in
    let law = lookup_route-remove_neighbour t n pfx a in
    elim (Bool-cases (has_key k (routes_from t n))) [
      | inl p ↦ absurd (none-some r (sym (rw p at law) ∙ e))
      | inr p ↦
          let found : lookup key_eq k t ≡ some r = sym (rw p at law) ∙ e in
          elim (Bool-cases (is_from n r)) [
            | inl q ↦ absurd (false-true (sym p ∙ routes_from-has_key t n k r h found q))
            | inr q ↦ (found, q)
          ]
    ]
