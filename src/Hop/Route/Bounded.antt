-- ===== src/Hop/Route/Bounded.antt =====
-- The route of src/hop.rs ends, within four hops.
use binport.Base.{
  ℕ, zero, suc, ◌+◌, ◌≤◌, false, List, [], ◌∷◌, ◌++◌, ◌≡◌, ◌≢◌, sym, ◌∙◌, ap, subst, arith, Option,
  Result, ok, err, inl, inr, Option-cases, passed, >>=-eq-ok, >>=-eq-err, ok_or-eq-err,
  refuse_if-eq-err, ok-injective, refuse_if, ok_or, map_err, ltb, any, length, append_assoc,
}
use binport.Host
use binport.Host.Store.{SshDir, find}
use binport.Host.{HostEntry}
use binport.Hop.Route.{
  cycle, no_password, too_many_hops, no_entry_host, host_error, unresolved, out_of_fuel,
  max_exec_hops, hop_of, next_entry, arrive, visit, follow, resolve_host_chain,
}
use binport.Hop.{HopTarget}
use binport.Text.{Text, equal}

map_err-in_code : {A : Type 0} (r : Result Host.Error A) → map_err host_error r ≢ err out_of_fuel
map_err-in_code (ok a) h = cc
map_err-in_code (err e) h = cc

at_most : (n : ℕ) → ltb max_exec_hops n ≡ false → n ≤ 4
at_most n h = ground arith

longer :
    (password : Option Text) (current : HostEntry) (route out : List HopTarget) (fuel : ℕ)
    → out ≡ hop_of current password ∷ route
    → 5 ≤ length route + suc fuel
    → 5 ≤ length out + fuel
longer password current route out fuel same enough =
    subst (λ (r : List HopTarget). 5 ≤ length r + fuel) (sym same) (omega arith)

module _ {D : Type 0} (dir : SshDir) (passwords : Text → Option (Option Text))
    (destination : Text → Option D) where
  visit-in_code :
      (visited : List Text) (route : List HopTarget) (current : HostEntry)
      → visit dir passwords destination visited route current ≢ err out_of_fuel
  unfolding visit
  visit-in_code visited route current h =
      elim (>>=-eq-err (refuse_if (any (equal current.name) visited) (cycle current.name)) _ h) [
        | inl here ↦ (let e = refuse_if-eq-err (any (equal current.name) visited) _ here in cc)
        | inr (unit, fresh, h1) ↦
            elim (>>=-eq-err (ok_or (passwords current.name) (no_password current.name)) _ h1) [
              | inl here ↦ (let e = ok_or-eq-err (passwords current.name) _ here in cc)
              | inr (password, read, h2) ↦
                  elim (>>=-eq-err
                    (refuse_if (ltb max_exec_hops (length (hop_of current password ∷ route)))
                      too_many_hops)
                    _ h2) [
                      | inl here ↦
                          (let e =
                              refuse_if-eq-err
                                (ltb max_exec_hops (length (hop_of current password ∷ route))) _
                                here in
                            cc)
                      | inr (unit, few, h3) ↦
                          elim (>>=-eq-err (ok_or current.proxy_jump (no_entry_host current.name)) _
                            h3) [
                              | inl here ↦ (let e = ok_or-eq-err current.proxy_jump _ here in cc)
                              | inr (parent, there, h4) ↦ cc
                            ]
                    ]
            ]
      ]

  visit-hop :
      (visited : List Text) (route : List HopTarget) (current : HostEntry)
      (next : List HopTarget × Text)
      → visit dir passwords destination visited route current ≡ ok next
      → (password : Option Text) × (next.0 ≡ hop_of current password ∷ route) × (length next.0 ≤ 4)
  unfolding visit
  visit-hop visited route current next h =
      let (fresh, h1) = passed (any (equal current.name) visited) (cycle current.name) _ h in
      let (password, read, h2) =
        >>=-eq-ok (ok_or (passwords current.name) (no_password current.name)) _ h1 in
      let (few, h3) =
        passed (ltb max_exec_hops (length (hop_of current password ∷ route))) too_many_hops _ h2 in
      let (parent, there, h4) =
        >>=-eq-ok (ok_or current.proxy_jump (no_entry_host current.name)) _ h3 in
      let same : next.0 ≡ hop_of current password ∷ route =
        ap (λ (n : List HopTarget × Text). n.0) (sym (ok-injective h4)) in
      (password, same, subst (λ (r : List HopTarget). length r ≤ 4) (sym same) (at_most _ few))

  arrive-in_code :
      (parent : Text) (route : List HopTarget)
      → arrive dir passwords destination parent route ≢ err out_of_fuel
  arrive-in_code parent route h =
      elim (>>=-eq-err (ok_or (destination parent) (unresolved parent)) _ h) [
        | inl here ↦ (let e = ok_or-eq-err (destination parent) _ here in cc)
        | inr (entry, there, h1) ↦ cc
      ]

  follow-in_code :
      (fuel : ℕ) (visited : List Text) (route : List HopTarget) (current : HostEntry)
      → length route ≤ 4
      → 5 ≤ length route + fuel
      → follow dir passwords destination fuel visited route current ≢ err out_of_fuel
  unfolding follow
  follow-in_code zero visited route current few enough h = omega arith
  follow-in_code (suc fuel) visited route current few enough h =
      elim (>>=-eq-err (visit dir passwords destination visited route current) _ h) [
        | inl here ↦ visit-in_code visited route current here
        | inr (next, visits, h1) ↦
            let (password, grown, few') = visit-hop visited route current next visits in
            elim (>>=-eq-err (map_err host_error (find next.1 dir)) _ h1) [
              | inl here ↦ map_err-in_code (find next.1 dir) here
              | inr (found, looks, h2) ↦
                  elim (Option-cases (next_entry dir passwords destination found)) [
                    | inl last ↦ arrive-in_code next.1 next.0 (rw last at h2)
                    | inr (entry, on) ↦
                        follow-in_code fuel (current.name ∷ visited) next.0 entry few'
                          (longer password current route next.0 fuel grown enough) (rw on at h2)
                  ]
            ]
      ]

  -- The hop of the entry that is followed stands behind those that are found, in front of the route.
  abbrev Extends : List HopTarget → HostEntry → List HopTarget → Type 0
  Extends route current out =
      (front : List HopTarget) × (password : Option Text) × (out
        ≡ front ++ hop_of current password ∷ route)

  follow-Extends :
      (fuel : ℕ) (visited : List Text) (route : List HopTarget) (current : HostEntry) (entry : D)
      (out : List HopTarget)
      → follow dir passwords destination fuel visited route current ≡ ok (entry, out)
      → (length out ≤ 4) × Extends route current out
  unfolding follow
  follow-Extends zero visited route current entry out h = cc
  follow-Extends (suc fuel) visited route current entry out h =
      let (next, visits, h1) =
        >>=-eq-ok (visit dir passwords destination visited route current) _ h in
      let (password, grown, few) = visit-hop visited route current next visits in
      let (found, looks, h2) = >>=-eq-ok (map_err host_error (find next.1 dir)) _ h1 in
      elim (Option-cases (next_entry dir passwords destination found)) [
        | inl last ↦
            let (there, finds, h3) =
              >>=-eq-ok (ok_or (destination next.1) (unresolved next.1)) _ (rw last at h2) in
            let same : next.0 ≡ out = ap (λ (p : D × List HopTarget). p.1) (ok-injective h3) in
            (
              subst (λ (r : List HopTarget). length r ≤ 4) same few,
              ([], password, sym same ∙ grown),
            )
        | inr (further, on) ↦
            let (few', (front, password', built)) =
              follow-Extends fuel (current.name ∷ visited) next.0 further entry out (rw on at h2) in
            (
              few',
              (
                front ++ hop_of further password' ∷ [],
                password,
                built
                    ∙ ap (λ (r : List HopTarget). front ++ hop_of further password' ∷ r) grown
                    ∙ sym (append_assoc front (hop_of further password' ∷ []) _),
              ),
            )
      ]

  -- The loop ends: five rounds are enough, and what the model returns is a result of the code.
  pub resolve_host_chain-in_code :
      (final_entry : HostEntry)
      → resolve_host_chain dir passwords destination final_entry ≢ err out_of_fuel
  unfolding resolve_host_chain
  resolve_host_chain-in_code final_entry h =
      follow-in_code 5 [] [] final_entry (omega arith) (omega arith) h

  -- A route that is found has one to four hops, and the last one is that of the host that was asked
  -- for.
  pub resolve_host_chain-Extends :
      (final_entry : HostEntry) (entry : D) (route : List HopTarget)
      → resolve_host_chain dir passwords destination final_entry ≡ ok (entry, route)
      → (length route ≤ 4)
        × (front : List HopTarget) × (password : Option Text) × (route
            ≡ front ++ hop_of final_entry password ∷ [])
  unfolding resolve_host_chain
  resolve_host_chain-Extends final_entry entry route h =
      let (few, (front, password, same)) = follow-Extends 5 [] [] final_entry entry route h in
      (few, front, password, same)
