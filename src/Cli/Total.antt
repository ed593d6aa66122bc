-- ===== src/Cli/Total.antt =====
-- The handlers of the command line return a session or throw, and neither wait nor fault.
use communo.Prelude.{
  ℕ, ◌≡◌, refl, ◌⊎◌, inl, inr, Bool, true, false, ◌||◌, List, [], ◌∷◌, Option, none, some, Bytes,
  codes, Exception, Result, ok, throws, ◌>>=◌, if◌then◌else◌, ltb, ◌==◌, length,
}
use communo.NumParser.Parse.{
  FloatText, IntegerSuffix, no_suffix, u, l, ul, ll, ull, parse_number, parse_integer_number,
  parse_by_suffix, or_throw, or_invalid, parse_float, remove_suffix, chop, has_hex_prefix,
  starts_negative, contains, back,
}
use communo.Cli.{Command, add, client_send_msg, chat_join, Session, parse_numbers, try_catch}
use communo.Cli.Handlers.{
  Outside, run_add, run_send_msg, run_join, parse_or_default, run_command, run_found,
}

-- A value or an exception, and a value.
pub data Settles {A : Type 0} : Result A → Type 0 where
  returns : {a : A} → Settles (ok a)
  raises : {e : Exception} → Settles (throws e)

data Returns {A : Type 0} : Result A → Type 0 where
  value : (a : A) → Returns (ok a)

module _ {A : Type 0} where
  if-Settles : (b : Bool) {x y : Result A} → Settles x → Settles y → Settles (if b then x else y)
  if-Settles true p q = p
  if-Settles false p q = q

  Returns-Settles : {r : Result A} → Returns r → Settles r
  Returns-Settles (value a) = returns

  or_throw-Settles : (o : Option A) (message : Bytes) → Settles (or_throw o message)
  or_throw-Settles none message = raises
  or_throw-Settles (some a) message = returns

  or_invalid-Settles : (o : Option A) (message : Bytes) → Settles (or_invalid o message)
  or_invalid-Settles none message = raises
  or_invalid-Settles (some a) message = returns

module _ {A B : Type 0} where
  bind-Settles :
      {m : Result A} {f : A → Result B} → Settles m → ((a : A) → Settles (f a)) → Settles (m >>= f)
  bind-Settles (returns {a = a}) h = h a
  bind-Settles raises h = raises

  caught :
      {m : Result A} {f : A → Result B} {g : Exception → Result B}
      → Settles m
      → ((a : A) → Returns (f a))
      → ((e : Exception) → Returns (g e))
      → Returns (try_catch m f g)
  caught (returns {a = a}) p q = p a
  caught (raises {e = e}) p q = q e

pub List-cases {ℓ} :
    {A : Type ℓ} (xs : List A) → (xs ≡ []) ⊎ ((x : A) × (r : List A) × (xs ≡ x ∷ r))
List-cases [] = inl refl
List-cases (x ∷ r) = inr (x, r, refl)

by_suffix-Settles :
    (suffix : IntegerSuffix) (negative : Bool) (s : Bytes) (base : ℕ)
    → Settles (parse_by_suffix suffix negative s base)
unfolding parse_by_suffix
by_suffix-Settles u negative s base = bind-Settles (or_throw-Settles _ _) (λ v. returns)
by_suffix-Settles ul negative s base = bind-Settles (or_throw-Settles _ _) (λ v. returns)
by_suffix-Settles ull negative s base = bind-Settles (or_throw-Settles _ _) (λ v. returns)
by_suffix-Settles ll negative s base = bind-Settles (or_throw-Settles _ _) (λ v. returns)
by_suffix-Settles l negative s base = bind-Settles (or_throw-Settles _ _) (λ v. returns)
by_suffix-Settles no_suffix negative s base =
    if-Settles negative (bind-Settles (or_throw-Settles _ _) (λ v. returns))
      (bind-Settles (or_throw-Settles _ _) (λ v. returns))

parse_integer_number-Settles : (s : Bytes) → Settles (parse_integer_number s)
unfolding parse_integer_number
parse_integer_number-Settles s =
    if-Settles (has_hex_prefix (remove_suffix s).0)
      (if-Settles (starts_negative (remove_suffix s).0) raises (by_suffix-Settles _ _ _ _))
      (by_suffix-Settles _ _ _ _)

parse_number-Settles : (lib : FloatText) (s : Bytes) → Settles (parse_number lib s)
unfolding parse_number
parse_number-Settles lib [] = raises
parse_number-Settles lib (c ∷ t) =
    if-Settles ((back c t == b'f') || (back c t == b'F'))
      (bind-Settles
        (or_invalid-Settles (parse_float lib.strtof (chop (c ∷ t) 1)) (codes "invalid float"))
        (λ v. returns))
      (if-Settles (contains (c ∷ t) b'.' || contains (c ∷ t) b'e' || contains (c ∷ t) b'E')
        (bind-Settles (or_invalid-Settles (parse_float lib.strtod (c ∷ t)) (codes "invalid double"))
          (λ v. returns))
        (parse_integer_number-Settles (c ∷ t)))

parse_numbers-Settles : (lib : FloatText) (args : List Bytes) → Settles (parse_numbers lib args)
unfolding parse_numbers
parse_numbers-Settles lib [] = returns
parse_numbers-Settles lib (arg ∷ args) =
    bind-Settles (parse_number-Settles lib arg)
      (λ num. bind-Settles (parse_numbers-Settles lib args) (λ nums. returns))

parse_or_default-Settles :
    (outside : Outside) (arg : Bytes) (s : Session) → Settles (parse_or_default outside arg s)
unfolding parse_or_default
parse_or_default-Settles outside arg s =
    Returns-Settles
      (caught (parse_number-Settles outside.float_text arg) (λ num. value _) (λ e. value _))

run_join-Settles :
    (outside : Outside) (args : List Bytes) (s : Session) → Settles (run_join outside args s)
unfolding run_join
run_join-Settles outside [] s = raises
run_join-Settles outside (id ∷ []) s =
    bind-Settles (parse_or_default-Settles outside id s) (λ p. returns)
run_join-Settles outside (id ∷ pwd ∷ []) s =
    bind-Settles (parse_or_default-Settles outside id s) (λ p. returns)
run_join-Settles outside (id ∷ pwd ∷ more ∷ args) s = raises

run_send_msg-Settles :
    (outside : Outside) (args : List Bytes) (s : Session) → Settles (run_send_msg outside args s)
unfolding run_send_msg
run_send_msg-Settles outside [] s = raises
run_send_msg-Settles outside (id ∷ []) s = raises
run_send_msg-Settles outside (id ∷ word ∷ words) s =
    bind-Settles (parse_or_default-Settles outside id s) (λ p. returns)

run_command-Settles :
    (outside : Outside) (command : Command) (args : List Bytes) (s : Session)
    → Settles (run_command outside command args s)
unfolding run_command run_add
run_command-Settles outside add args s = if-Settles (ltb (length args) 2) raises (
    Returns-Settles
      (caught (parse_numbers-Settles outside.float_text args) (λ n. value _) (λ e. value _)))
run_command-Settles outside client_send_msg args s = run_send_msg-Settles outside args s
run_command-Settles outside chat_join args s = run_join-Settles outside args s
run_command-Settles outside _ args s = returns

pub run_found-Settles :
    (outside : Outside) (o : Option Command) (args : List Bytes) (s : Session)
    → Settles (run_found outside o args s)
run_found-Settles outside none args s = raises
run_found-Settles outside (some command) args s = run_command-Settles outside command args s
