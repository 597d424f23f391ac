-- ===== src/Accounts.antt =====
-- `AccountMapper` (tt_ledger/identity/accounts.py): nicknames, account numbers, environments and
-- logins. A missing key, `KeyError` in the program, is `none`.
use tt_ledger.Base.{
  String, Option, none, some, [], ◌∷◌, ◌≡◌, get_or_else, if◌then◌else◌, AllOf, inl, inr, arith, ◌⊎◌,
}
use tt_ledger.Base.Assoc.{Assoc, lookup, insert, text_eq, lookup-insert}
use tt_ledger.Base.Text.{opt_is, eq_iff}

pub record AccountMapper : Type 0 where
  pub n2num : Assoc String String
  pub num2n : Assoc String String
  pub fallback : Option String
  pub n2env : Assoc String String
  pub n2login : Assoc String String

-- `{v: k for k, v in nickname_to_number.items()}` from the entries on
unfoldable pub inverted_onto : Assoc String String → Assoc String String → Assoc String String
inverted_onto acc [] = acc
inverted_onto acc ((nickname, number) ∷ rest) = inverted_onto (insert number nickname acc) rest

-- `{n: value for n in nickname_to_number}`
unfoldable pub all_to : String → Assoc String String → Assoc String String
all_to value [] = []
all_to value ((nickname, _) ∷ rest) = (nickname, value) ∷ all_to value rest

-- `given or default`: an empty dict counts as missing
abbrev pub or_dict : Assoc String String → Assoc String String → Assoc String String
or_dict [] d = d
or_dict (x ∷ xs) d = x ∷ xs

unfoldable pub account_mapper :
    Assoc String String
    → Option String
    → Option String
    → Assoc String String
    → Assoc String String
    → AccountMapper
unfolding inverted_onto all_to
account_mapper nickname_to_number default_account login nickname_to_env nickname_to_login = record {
  n2num = nickname_to_number;
  num2n = inverted_onto [] nickname_to_number;
  fallback = default_account;
  n2env = or_dict nickname_to_env (all_to "live" nickname_to_number);
  n2login =
      or_dict nickname_to_login (elim login [ none ↦ [] | some l ↦ all_to l nickname_to_number ]);
}

unfoldable pub to_nickname : AccountMapper → String → Option String
to_nickname m number = lookup number m.num2n

unfoldable pub to_account_number : AccountMapper → String → Option String
to_account_number m nickname = lookup nickname m.n2num

unfoldable pub env_for : AccountMapper → String → String
env_for m nickname = get_or_else (lookup nickname m.n2env) "live"

unfoldable pub login_for : AccountMapper → String → Option String
login_for m nickname = lookup nickname m.n2login

-- an empty default account counts as none
unfoldable pub default_nickname : AccountMapper → Option String
default_nickname m = elim m.fallback [
  | none ↦ none
  | some number ↦ if opt_is m.fallback "" then none else lookup number m.num2n
]

-- no other nickname has the number
abbrev pub Owns : String → String → Assoc String String → Type 0
Owns nickname number = AllOf (λ (e : String × String). e.1 ≡ number → e.0 ≡ nickname)

-- an inverted dict keeps an answer that no later entry contradicts, and finds a later one
lookup-inverted_onto :
    (nickname number : String) (entries acc : Assoc String String)
    → Owns nickname number entries
    → (lookup number acc ≡ some nickname) ⊎ (lookup nickname entries ≡ some number)
    → lookup number (inverted_onto acc entries) ≡ some nickname
unfolding inverted_onto lookup
lookup-inverted_onto nickname number [] acc owns (inl kept) = kept
lookup-inverted_onto nickname number [] acc owns (inr h) = cc
lookup-inverted_onto nickname number ((n, v) ∷ rest) acc (own, owns) found =
    lookup-inverted_onto nickname number rest (insert v n acc) owns
      (ground (arith, found, own, eq_iff n nickname, eq_iff v number, lookup-insert v number n acc))

-- A nickname translated to its account number translates back to itself, in a mapper whose
-- accounts do not share that number.
pub to_nickname-to_account_number :
    (numbers : Assoc String String) (default_account login : Option String)
    (envs logins : Assoc String String) (nickname number : String)
    → let m = account_mapper numbers default_account login envs logins in
      Owns nickname number numbers
      → to_account_number m nickname ≡ some number
      → to_nickname m number ≡ some nickname
unfolding account_mapper to_nickname to_account_number
to_nickname-to_account_number numbers default_account login envs logins nickname number owns known =
    lookup-inverted_onto nickname number numbers [] owns (inr known)
