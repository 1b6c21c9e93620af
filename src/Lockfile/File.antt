-- ===== src/Lockfile/File.antt =====
-- The file `Binport.lock`: `ProjectLock` of src/lockfile.rs, its `read`, `write` and `verify_binfile`.
use binport.Base.{
  ℕ, Bool, true, false, not, ◌&&◌, List, [], ◌∷◌, ◌++◌, Result, ok, ◌>>=◌, ◌>>◌, ◌==◌, refuse_if,
  ok_or,
}
use binport.Json.{Bytes, Coder}
use binport.Lockfile.{ResolvedTool, ResolvedCopy}
use binport.Places.{Place, Tree, read_at, write_at, join}
use binport.Text.{Text, codes, equal}

pub record ProjectLock : Type 0 where
  pub format : ℕ
  pub binfile_sha256 : Text
  pub tools : List ResolvedTool
  pub copies : List ResolvedCopy

pub data Error : Type 0 where
  file_not_found : Error
  invalid_json : Error
  not_serialized : Error
  unsupported_format : ℕ → Error
  binfile_changed : Error

abbrev same_tool : ResolvedTool → ResolvedTool → Bool
same_tool a b =
    equal a.name b.name
    && equal a.version b.version
    && equal a.platform b.platform
    && equal a.source b.source
    && equal a.source_sha256 b.source_sha256
    && equal a.archive b.archive

abbrev same_copy : ResolvedCopy → ResolvedCopy → Bool
same_copy a b =
    equal a.name b.name
    && equal a.platform b.platform
    && equal a.source b.source
    && equal a.sha256 b.sha256

abbrev same_list : {A : Type 0} → (A → A → Bool) → List A → List A → Bool
same_list same [] [] = true
same_list same [] (y ∷ ys) = false
same_list same (x ∷ xs) [] = false
same_list same (x ∷ xs) (y ∷ ys) = same x y && same_list same xs ys

-- The derived `PartialEq`
unfoldable pub same_lock : ProjectLock → ProjectLock → Bool
same_lock a b =
    a.format == b.format
    && equal a.binfile_sha256 b.binfile_sha256
    && same_list same_tool a.tools b.tools
    && same_list same_copy a.copies b.copies

abbrev pub lockfile_name : Text
lockfile_name = codes "Binport.lock"

unfoldable pub read : Coder ProjectLock → Place → Tree → Result Error ProjectLock
read coder root tree = do
  bytes ← ok_or (read_at (join root lockfile_name) tree) file_not_found
  lock ← ok_or (coder.from_slice bytes) invalid_json
  refuse_if (not (lock.format == 1)) (unsupported_format lock.format)
  ok lock

unfoldable pub write : Coder ProjectLock → ProjectLock → Place → Tree → Result Error Tree
write coder lock root tree = do
  bytes ← ok_or (coder.to_vec lock) not_serialized
  ok (write_at (join root lockfile_name) (bytes ++ codes "\n") tree)

-- The argument is the text of the Binfile.
unfoldable pub verify_binfile : (Bytes → Text) → ProjectLock → Bytes → Result Error (Unit {0})
verify_binfile hash_bytes lock binfile =
    refuse_if (not (equal (hash_bytes binfile) lock.binfile_sha256)) binfile_changed
