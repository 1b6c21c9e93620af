-- ===== src/Ssh/Groups/Sound.antt =====
-- What `select_hosts_from_config` of src/ssh.rs returns.
use binport.Base.{
  true, false, not, ◌&&◌, ◌||◌, List, [], ◌∷◌, ◌≡◌, refl, ◌∙◌, arith, Option, none, some, any, All,
  All-append, if_intro, IsDistinct, snoc-IsDistinct, Bool-cases, inl, inr, &&-true, ||-false,
  not-true,
}
use binport.Host.Config.{key_value, is_key}
use binport.Ssh.Groups.{
  is_pattern, is_member, push_alias, push_aliases, push_line, push_lines, place, sort,
  select_hosts_from_config,
}
use binport.Text.Order.{less, equal_comm, less_trans, less-total}
use binport.Text.{Text, equal, lines, split_whitespace}

-- The alias is no pattern and belongs to the group.
abbrev pub IsSelected : Text → Text → Type 0
IsSelected group alias = (is_pattern alias ≡ false) × (is_member group alias ≡ true)

record Inv (group : Text) (hosts : List Text) : Type 0 where
  selected : All (IsSelected group) hosts
  distinct : IsDistinct equal hosts

any_comm : (a : Text) (hosts : List Text) → any (equal a) hosts ≡ any (λ host. equal host a) hosts
any_comm a [] = refl
any_comm a (h ∷ hosts) = rw (equal_comm a h, any_comm a hosts) refl

push_alias-Inv :
    (group : Text) (hosts : List Text) (alias : Text)
    → Inv group hosts
    → Inv group (push_alias group hosts alias)
push_alias-Inv group hosts alias inv = elim (Bool-cases (is_pattern alias)) [
  | inl pattern ↦ rw pattern inv
  | inr concrete ↦
      elim (Bool-cases (is_member group alias && not (any (λ host. equal host alias) hosts))) [
        | inl new ↦
            let (member, fresh) = &&-true (is_member group alias) _ new in
            rw (concrete, new)
              (record {
                selected =
                    All-append (IsSelected group) hosts (alias ∷ []) inv.selected
                      ((concrete, member), tt);
                distinct =
                    snoc-IsDistinct equal equal_comm hosts alias inv.distinct
                      (any_comm alias hosts ∙ not-true _ fresh);
              })
        | inr old ↦ rw (concrete, old) inv
      ]
]

push_aliases-Inv :
    (group : Text) (hosts aliases : List Text)
    → Inv group hosts
    → Inv group (push_aliases group hosts aliases)
push_aliases-Inv group hosts [] inv = inv
push_aliases-Inv group hosts (alias ∷ aliases) inv =
    push_aliases-Inv group (push_alias group hosts alias) aliases
      (push_alias-Inv group hosts alias inv)

push_line-Inv :
    (group : Text) (hosts : List Text) (o : Option (Text × Text))
    → Inv group hosts
    → Inv group (push_line group hosts o)
push_line-Inv group hosts none inv = inv
push_line-Inv group hosts (some (key, value)) inv =
    if_intro (Inv group) (is_key key "host")
      (push_aliases-Inv group hosts (split_whitespace value) inv) inv

push_lines-Inv :
    (group : Text) (hosts ls : List Text) → Inv group hosts → Inv group (push_lines group hosts ls)
push_lines-Inv group hosts [] inv = inv
push_lines-Inv group hosts (raw ∷ ls) inv =
    push_lines-Inv group (push_line group hosts (key_value raw)) ls
      (push_line-Inv group hosts (key_value raw) inv)

abbrev pub Above : Text → List Text → Type 0
Above x = All (λ y. less x y ≡ true)

-- Strictly increasing, so no host stands twice.
abbrev pub IsIncreasing : List Text → Type 0
IsIncreasing [] = Unit
IsIncreasing (x ∷ xs) = Above x xs × IsIncreasing xs

place-All : (P : Text → Type 0) (x : Text) (ys : List Text) → P x → All P ys → All P (place x ys)
place-All P x [] px h = (px, tt)
place-All P x (y ∷ ys) px (py, h) =
    if_intro (All P) (less y x) (py, place-All P x ys px h) (px, (py, h))

Above-trans : (a b : Text) (xs : List Text) → less a b ≡ true → Above b xs → Above a xs
Above-trans a b [] h k = tt
Above-trans a b (x ∷ xs) h (k, ks) = (less_trans a b x h k, Above-trans a b xs h ks)

place-IsIncreasing :
    (x : Text) (ys : List Text)
    → any (equal x) ys ≡ false
    → IsIncreasing ys
    → IsIncreasing (place x ys)
place-IsIncreasing x [] new h = (tt, tt)
place-IsIncreasing x (y ∷ ys) new (above, h) =
    let (other, later) = ||-false (equal x y) (any (equal x) ys) new in
    elim (Bool-cases (less y x)) [
      | inl below ↦
          rw below
            (place-All (λ z. less y z ≡ true) x ys below above, place-IsIncreasing x ys later h)
      | inr not_below ↦
          let over = less-total y x (equal_comm y x ∙ other) not_below in
          rw not_below ((over, Above-trans x y ys over above), (above, h))
    ]

any-place :
    (a x : Text) (ys : List Text) → any (equal a) (place x ys) ≡ (equal a x || any (equal a) ys)
any-place a x [] = refl
any-place a x (y ∷ ys) = ground (arith, any-place a x ys)

any-sort : (a : Text) (xs : List Text) → any (equal a) (sort xs) ≡ any (equal a) xs
any-sort a [] = refl
any-sort a (x ∷ xs) = any-place a x (sort xs) ∙ rw (any-sort a xs) refl

sort-IsIncreasing : (xs : List Text) → IsDistinct equal xs → IsIncreasing (sort xs)
sort-IsIncreasing [] h = tt
sort-IsIncreasing (x ∷ xs) (new, h) =
    place-IsIncreasing x (sort xs) (any-sort x xs ∙ new) (sort-IsIncreasing xs h)

sort-All : (P : Text → Type 0) (xs : List Text) → All P xs → All P (sort xs)
sort-All P [] h = tt
sort-All P (x ∷ xs) (px, h) = place-All P x (sort xs) px (sort-All P xs h)

-- The hosts of a group are in strictly increasing order, none is a pattern, and each belongs to the
-- group.
pub select_hosts_from_config-IsIncreasing :
    (source group : Text)
    → IsIncreasing (select_hosts_from_config source group)
      × All (IsSelected group) (select_hosts_from_config source group)
unfolding select_hosts_from_config
select_hosts_from_config-IsIncreasing source group =
    let inv = push_lines-Inv group [] (lines source) (record { selected = tt; distinct = tt }) in
    (sort-IsIncreasing _ inv.distinct, sort-All (IsSelected group) _ inv.selected)
