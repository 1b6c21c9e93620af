-- ===== src/Ssh/Login/Laws.antt =====
-- The keys that src/ssh.rs tries, and the login name at a bastion.
use binport.Base.{
  zero, Bool, true, not, List, [], ◌∷◌, ◌++◌, ◌≡◌, refl, ◌∙◌, ap, arith, Option, none, some, ◌==◌,
  all, any, append-nil, IsDistinct, snoc-IsDistinct, if_intro, Bool-cases, inl, inr,
}
use binport.Ssh.Login.{
  replace_from, replace, format_username, components, same_path, contains_path, push_new, push_keys,
  managed_paths, with_identity, key_names, identity_paths,
}
use binport.Ssh.Config.{join_text, default_format}
use binport.Ssh.{Destination, BastionProxy}
use binport.Places.{Place, same_place}
use binport.Text.Order.{equal_comm}
use binport.Text.{Text, codes}

same_place_comm : (p q : Place) → same_place p q ≡ same_place q p
same_place_comm [] [] = refl
same_place_comm [] (b ∷ q) = refl
same_place_comm (a ∷ p) [] = refl
same_place_comm (a ∷ p) (b ∷ q) = rw (equal_comm a b, same_place_comm p q) refl

same_path_comm : (p q : Text) → same_path p q ≡ same_path q p
same_path_comm p q = same_place_comm (components p) (components q)

contains_path_comm :
    (p : Text) (paths : List Text) → any (same_path p) paths ≡ contains_path p paths
contains_path_comm p [] = refl
contains_path_comm p (q ∷ paths) = rw (same_path_comm p q, contains_path_comm p paths) refl

push_new-IsDistinct :
    (paths : List Text) (p : Text)
    → IsDistinct same_path paths
    → IsDistinct same_path (push_new paths p)
push_new-IsDistinct paths p h = elim (Bool-cases (contains_path p paths)) [
  | inl there ↦ rw there h
  | inr new ↦
      rw new (snoc-IsDistinct same_path same_path_comm paths p h (contains_path_comm p paths ∙ new))
]

push_keys-IsDistinct :
    (is_file : Text → Bool) (ssh_dir : Text) (names paths : List Text)
    → IsDistinct same_path paths
    → IsDistinct same_path (push_keys is_file ssh_dir names paths)
push_keys-IsDistinct is_file ssh_dir [] paths h = h
push_keys-IsDistinct is_file ssh_dir (name ∷ names) paths h =
    push_keys-IsDistinct is_file ssh_dir names _ (
      if_intro (IsDistinct same_path) (is_file (join_text ssh_dir name))
        (push_new-IsDistinct paths (join_text ssh_dir name) h) h)

with_identity-IsDistinct :
    (identity managed : Option Text)
    → IsDistinct same_path (with_identity identity (managed_paths managed))
with_identity-IsDistinct none none = tt
with_identity-IsDistinct none (some m) = (refl, tt)
with_identity-IsDistinct (some p) none = (refl, tt)
with_identity-IsDistinct (some p) (some m) = push_new-IsDistinct (m ∷ []) p (refl, tt)

-- The list begins with `xs`.
abbrev pub Begins : List Text → List Text → Type 0
Begins xs paths = (rest : List Text) × (paths ≡ xs ++ rest)

push_new-Begins :
    (m p : Text) (paths : List Text) → Begins (m ∷ []) paths → Begins (m ∷ []) (push_new paths p)
push_new-Begins m p paths (rest, same) =
    if_intro (Begins (m ∷ [])) (contains_path p paths) (rest, same) (rest ++ p ∷ [], rw same refl)

push_keys-Begins :
    (m : Text) (is_file : Text → Bool) (ssh_dir : Text) (names paths : List Text)
    → Begins (m ∷ []) paths
    → Begins (m ∷ []) (push_keys is_file ssh_dir names paths)
push_keys-Begins m is_file ssh_dir [] paths h = h
push_keys-Begins m is_file ssh_dir (name ∷ names) paths h =
    push_keys-Begins m is_file ssh_dir names _ (
      if_intro (Begins (m ∷ [])) (is_file (join_text ssh_dir name))
        (push_new-Begins m (join_text ssh_dir name) paths h) h)

with_identity-Begins :
    (m : Text) (identity : Option Text) → Begins (m ∷ []) (with_identity identity (m ∷ []))
with_identity-Begins m none = ([], refl)
with_identity-Begins m (some p) = push_new-Begins m p (m ∷ []) ([], refl)

-- No key file is tried twice, as paths by their components; and when the destination has a key that binport
-- manages, it is the first one, before the one of the configuration and the usual ones.
pub identity_paths-IsDistinct :
    (home : Option Text) (is_file : Text → Bool) (d : Destination)
    → IsDistinct same_path (identity_paths home is_file d)
      × ((m : Text) → d.managed_identity ≡ some m → Begins (m ∷ []) (identity_paths home is_file d))
unfolding identity_paths
identity_paths-IsDistinct none is_file d = (
  with_identity-IsDistinct d.identity d.managed_identity,
  λ m h. rw h (with_identity-Begins m d.identity),
)
identity_paths-IsDistinct (some home) is_file d = (
  push_keys-IsDistinct is_file _ key_names _
      (with_identity-IsDistinct d.identity d.managed_identity),
  λ m h. push_keys-Begins m is_file _ key_names _ (rw h (with_identity-Begins m d.identity)),
)

-- Without an opening brace.
abbrev pub IsBraceless : Text → Type 0
IsBraceless s = all (λ c. not (c == b'{')) s ≡ true

replace-braceless :
    (part with s rest : Text)
    → IsBraceless s
    → replace_from (b'{' ∷ part) with zero (s ++ rest)
      ≡ s ++ replace_from (b'{' ∷ part) with zero rest
replace-braceless part with [] rest h = refl
replace-braceless part with (c ∷ s) rest h = ground (arith, replace-braceless part with s rest)

-- With the default format, and no opening brace in the user's name and the host's, the login name is
-- the user, the host and the account with slashes between them.
pub format_username-default :
    (bastion : BastionProxy) (host : Text)
    → bastion.format ≡ default_format
    → IsBraceless bastion.user
    → IsBraceless host
    → format_username bastion host
      ≡ bastion.user ++ (codes "/" ++ (host ++ (codes "/" ++ bastion.account)))
unfolding format_username replace
format_username-default bastion host default user plain = rw default (
    ap (replace (codes "{account}") bastion.account)
      (replace-braceless (codes "host}") host bastion.user (codes "/{host}/{account}") user)
    ∙ replace-braceless (codes "account}") bastion.account bastion.user
        (codes "/" ++ (host ++ codes "/{account}")) user
    ∙ ap (λ t. bastion.user ++ (codes "/" ++ t))
        (replace-braceless (codes "account}") bastion.account host (codes "/{account}") plain)
    ∙ ap (λ t. bastion.user ++ (codes "/" ++ (host ++ (codes "/" ++ t))))
        (append-nil bastion.account))
