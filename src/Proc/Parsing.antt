-- ===== src/Proc/Parsing.antt =====
-- The options in a text for the proc file, and the flag that each of them assigns.
use pciedummy_driver.Common.{
  Bool, true, false, ltb, ℕ, ◌^◌, ◌≡◌, refl, ◌∙◌, not, Option, none, some, List, [], ◌∷◌, ◌++◌,
  arith, ◌==◌, if◌then◌else◌,
}
use pciedummy_driver.State.{MtcaDummyControl}
use pciedummy_driver.Kernel.{}
use pciedummy_driver.Proc.{
  Options, no_options, assign_options, assign, open_prefix, read_prefix, write_prefix, spi_prefix,
  scan_token, scan_tokens,
}

-- The four failures that a process can inject, with the prefix of the option, its place among the
-- options and its flag in the control data.
pub data Failure : Type 0 where
  open_failure read_failure write_failure spi_failure : Failure

abbrev pub prefix_of : Failure → List ℕ
prefix_of open_failure = open_prefix
prefix_of read_failure = read_prefix
prefix_of write_failure = write_prefix
prefix_of spi_failure = spi_prefix

abbrev pub option_of : Failure → Options → ℕ
option_of open_failure o = o.open_option
option_of read_failure o = o.read_option
option_of write_failure o = o.write_option
option_of spi_failure o = o.spi_option

abbrev pub flag_of : Failure → MtcaDummyControl → Bool
flag_of open_failure c = c.open_error
flag_of read_failure c = c.read_error
flag_of write_failure c = c.write_error
flag_of spi_failure c = c.spi_error

pub assign_options-flag_of :
    (f : Failure) (o : Options) (c : MtcaDummyControl)
    → flag_of f (assign_options o c) ≡ assign (option_of f o) (flag_of f c)
unfolding assign_options
assign_options-flag_of open_failure o c = refl
assign_options-flag_of read_failure o c = refl
assign_options-flag_of write_failure o c = refl
assign_options-flag_of spi_failure o c = refl

pub no_option_assigned : (f : Failure) (b : Bool) → assign (option_of f no_options) b ≡ b
no_option_assigned open_failure b = refl
no_option_assigned read_failure b = refl
no_option_assigned write_failure b = refl
no_option_assigned spi_failure b = refl

abbrev pub same_failure : Failure → Failure → Bool
same_failure open_failure open_failure = true
same_failure read_failure read_failure = true
same_failure write_failure write_failure = true
same_failure spi_failure spi_failure = true
same_failure _ _ = false

abbrev pub only_for : Failure → Failure → ℕ → Option ℕ
only_for f g v = if same_failure f g then some v else none

-- The value that a token gives to the option of a failure, which is the first of the four prefixes
-- with which the token scans.
abbrev pub value_given : (List ℕ → List ℕ → Option ℕ) → Failure → List ℕ → Option ℕ
value_given scan f t = elim (scan open_prefix t) [
  | some v ↦ only_for open_failure f v
  | none ↦ elim (scan read_prefix t) [
    | some v ↦ only_for read_failure f v
    | none ↦ elim (scan write_prefix t) [
      | some v ↦ only_for write_failure f v
      | none ↦ elim (scan spi_prefix t) [ some v ↦ only_for spi_failure f v | none ↦ none ]
    ]
  ]
]

-- The value of the last token that gives one.
abbrev pub last_given : (List ℕ → List ℕ → Option ℕ) → Failure → List (List ℕ) → Option ℕ
last_given scan f [] = none
last_given scan f (t ∷ ts) = elim (last_given scan f ts) [
  | some v ↦ some v
  | none ↦ value_given scan f t
]

-- Whether the failure is injected: a value that is not negative says so, and else it stays.
abbrev pub injected : Option ℕ → Bool → Bool
injected none old = old
injected (some v) old = if ltb v (2 ^ 31) then not (v == 0) else old

module _ (scan : List ℕ → List ℕ → Option ℕ) where
  -- None of the tokens is an option of that name.
  abbrev pub NoneScans : List ℕ → List (List ℕ) → Type 0
  NoneScans prefix [] = Unit
  NoneScans prefix (t ∷ ts) = (scan prefix t ≡ none) × NoneScans prefix ts

  -- The token is none of the options that are tried before that of the failure.
  abbrev pub EarlierFail : Failure → List ℕ → Type 0
  EarlierFail open_failure t = Unit
  EarlierFail read_failure t = scan open_prefix t ≡ none
  EarlierFail write_failure t = (scan open_prefix t ≡ none) × (scan read_prefix t ≡ none)
  EarlierFail spi_failure t =
      (scan open_prefix t ≡ none) × (scan read_prefix t ≡ none) × (scan write_prefix t ≡ none)

  scan_tokens-append :
      (ts us : List (List ℕ)) (o : Options)
      → scan_tokens scan (ts ++ us) o ≡ scan_tokens scan us (scan_tokens scan ts o)
  unfolding scan_tokens
  scan_tokens-append [] us o = refl
  scan_tokens-append (t ∷ ts) us o = scan_tokens-append ts us (scan_token scan t o)

  scan_token_kept :
      (f : Failure) (t : List ℕ) (o : Options)
      → scan (prefix_of f) t ≡ none
      → option_of f (scan_token scan t o) ≡ option_of f o
  unfolding scan_token
  scan_token_kept open_failure t o h = ground arith
  scan_token_kept read_failure t o h = ground arith
  scan_token_kept write_failure t o h = ground arith
  scan_token_kept spi_failure t o h = ground arith

  scan_token_found :
      (f : Failure) (t : List ℕ) (v : ℕ) (o : Options)
      → EarlierFail f t
      → scan (prefix_of f) t ≡ some v
      → option_of f (scan_token scan t o) ≡ v
  unfolding scan_token
  scan_token_found open_failure t v o e h = ground arith
  scan_token_found read_failure t v o e h = ground arith
  scan_token_found write_failure t v o e h = ground arith
  scan_token_found spi_failure t v o e h = ground arith

  pub option_kept :
      (f : Failure) (ts : List (List ℕ)) (o : Options)
      → NoneScans (prefix_of f) ts
      → option_of f (scan_tokens scan ts o) ≡ option_of f o
  unfolding scan_tokens
  option_kept f [] o h = refl
  option_kept f (t ∷ ts) o h =
      option_kept f ts (scan_token scan t o) h.1 ∙ scan_token_kept f t o h.0

  pub option_last :
      (f : Failure) (ts us : List (List ℕ)) (t : List ℕ) (v : ℕ) (o : Options)
      → EarlierFail f t
      → scan (prefix_of f) t ≡ some v
      → NoneScans (prefix_of f) us
      → option_of f (scan_tokens scan (ts ++ (t ∷ us)) o) ≡ v
  unfolding scan_tokens
  option_last f ts us t v o earlier found rest = rw (scan_tokens-append ts (t ∷ us) o) (
      option_kept f us (scan_token scan t (scan_tokens scan ts o)) rest
      ∙ scan_token_found f t v (scan_tokens scan ts o) earlier found)

  abbrev pub value_or : Option ℕ → ℕ → ℕ
  value_or none old = old
  value_or (some v) old = v

  scan_token-option_of :
      (f : Failure) (t : List ℕ) (o : Options)
      → option_of f (scan_token scan t o) ≡ value_or (value_given scan f t) (option_of f o)
  unfolding scan_token
  scan_token-option_of open_failure t o = ground arith
  scan_token-option_of read_failure t o = ground arith
  scan_token-option_of write_failure t o = ground arith
  scan_token-option_of spi_failure t o = ground arith

  scan_tokens-option_of :
      (f : Failure) (ts : List (List ℕ)) (o : Options)
      → option_of f (scan_tokens scan ts o) ≡ value_or (last_given scan f ts) (option_of f o)
  unfolding scan_tokens
  scan_tokens-option_of f [] o = refl
  scan_tokens-option_of f (t ∷ ts) o =
      ground (arith, scan_tokens-option_of f ts (scan_token scan t o), scan_token-option_of f t o)

  assigned-injected :
      (f : Failure) (given : Option ℕ) (old : Bool)
      → assign (value_or given (option_of f no_options)) old ≡ injected given old
  assigned-injected f none old = no_option_assigned f old
  assigned-injected f (some v) old = refl

  -- The flag of a failure once the options in the tokens are assigned.
  pub assign_options-injected :
      (f : Failure) (ts : List (List ℕ)) (c : MtcaDummyControl)
      → flag_of f (assign_options (scan_tokens scan ts no_options) c)
        ≡ injected (last_given scan f ts) (flag_of f c)
  assign_options-injected f ts c =
      rw
        (
          assign_options-flag_of f (scan_tokens scan ts no_options) c,
          scan_tokens-option_of f ts no_options,
        )
        (assigned-injected f (last_given scan f ts) (flag_of f c))
