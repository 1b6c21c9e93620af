-- ===== src/Shell/Posix.antt =====
-- How a POSIX shell splits a command line into words (POSIX.1 XCU 2.2, 2.6.2 and 2.6.5), as the
-- independent reading against which the commands of the program are held: blanks, single quotes,
-- double quotes with `$NAME`, and backslashes. What lies outside this fragment is refused (`none`),
-- so a command that is read here holds no operator, substitution or pattern outside its quotes.
-- `env` gives the values of the variables.
use binport.Base.{
  ℕ, Bool, ◌&&◌, ◌||◌, List, [], ◌∷◌, ◌++◌, Option, none, some, ◌==◌, if◌then◌else◌, is_empty,
}
use binport.Text.{Text, is_ascii_alphanumeric, is_ascii_digit}

pub data Mode : Type 0 where
  blank word single double escape variable : Mode

pub record Reader : Type 0 where
  pub mode : Mode
  pub current : Text
  pub name : Text
  pub read : List Text

infixl 5 ◌>>=◌
abbrev pub ◌>>=◌ : {A B : Type 0} → Option A → (A → Option B) → Option B
none >>= f = none
some a >>= f = f a

-- A character that means itself outside quotes.
is_plain : ℕ → Bool
unfolding is_ascii_alphanumeric
is_plain c =
    is_ascii_alphanumeric c || c == b'-' || c == b'_' || c == b'.' || c == b'/' || c == b'+'

abbrev pub push : Reader → ℕ → Mode → Reader
push r c m = record r { current = r.current ++ c ∷ []; mode = m }

abbrev end_word : Reader → Reader
end_word r = record r { mode = Mode.blank; current = []; read = r.read ++ r.current ∷ [] }

open_quote : Reader → ℕ → Option Reader
unfolding is_plain
open_quote r c =
    if c == b'\''
    then some (record r { mode = Mode.single })
    else if c == b'"'
    then some (record r { mode = Mode.double })
    else if c == b'\\'
    then some (record r { mode = Mode.escape })
    else if is_plain c
    then some (push r c Mode.word)
    else none

in_double : Reader → ℕ → Option Reader
in_double r c =
    if c == b'"'
    then some (record r { mode = Mode.word })
    else if c == b'$'
    then some (record r { mode = Mode.variable; name = [] })
    else if c == b'`' || c == b'\\'
    then none
    else some (push r c Mode.double)

unfoldable pub step_in : (Text → Text) → Mode → Reader → ℕ → Option Reader
unfolding open_quote in_double is_ascii_alphanumeric is_ascii_digit
step_in env Mode.blank r c = if c == b' ' then some r else open_quote r c
step_in env Mode.word r c = if c == b' ' then some (end_word r) else open_quote r c
step_in env Mode.single r c =
    some (if c == b'\'' then record r { mode = Mode.word } else push r c Mode.single)
step_in env Mode.escape r c = if c == 10 then none else some (push r c Mode.word)
step_in env Mode.double r c = in_double r c
step_in env Mode.variable r c =
    if is_empty r.name && is_ascii_digit c
    then none
    else if is_ascii_alphanumeric c || c == b'_'
    then some (record r { name = r.name ++ c ∷ [] })
    else if is_empty r.name
    then none
    else in_double (record r { current = r.current ++ env r.name; name = [] }) c

finish_in : Mode → Reader → Option (List Text)
finish_in Mode.blank r = some r.read
finish_in Mode.word r = some (r.read ++ r.current ∷ [])
finish_in _ r = none

unfoldable pub run : (Text → Text) → Reader → Text → Option (List Text)
unfolding finish_in
run env r [] = finish_in r.mode r
run env r (c ∷ s) = do q ← step_in env r.mode r c; run env q s

abbrev pub start : Reader
start = record { mode = Mode.blank; current = []; name = []; read = [] }

-- The words of a command line.
unfoldable pub words : (Text → Text) → Text → Option (List Text)
words env s = run env start s
