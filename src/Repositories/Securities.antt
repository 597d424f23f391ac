-- ===== src/Repositories/Securities.antt =====
-- Securities as ingestion meets them (tt_ledger/identity/securities.py and `SecurityRepository` in
-- tt_ledger/repositories/__init__.py). A resolver may raise; what it raises is kept as its text.
use tt_ledger.Base.{ℕ, String, Option, none, some, List, [], ◌∷◌, get_or_else, if◌then◌else◌}
use tt_ledger.Base.Assoc.{text_eq}
use tt_ledger.Base.Text.{codes, strip, lower, member}
use tt_ledger.Legs.{same_codes}
use tt_ledger.Rows.{SecurityRow}
use tt_ledger.Rows.Units.{Date, Price}
use tt_ledger.Store.Memory.{InMemoryStore}
use tt_ledger.Store.Writes.{upsert_security}

-- a call that may raise
pub data Attempt {ℓ} (A : Type ℓ) : Type ℓ where
  ok : A → Attempt A
  raised : String → Attempt A

pub record ResolvedSecurity : Type 0 where
  pub security_id : String
  pub product_type : Option String
  pub underlying : Option String
  pub expiry : Option Date
  pub strike : Option Price
  pub option_type : Option String
  pub multiplier : Option ℕ

-- `SecurityResolver.resolve`: a vendor symbol and its instrument type
abbrev pub SecurityResolver : Type 0
SecurityResolver = String → Option String → Attempt ResolvedSecurity

-- `_TT_INSTRUMENT_TYPE_TO_PRODUCT`
abbrev pub instrument_products : List (String × String)
instrument_products =
    ("equity", "S")
    ∷ ("index", "I")
    ∷ ("future", "F")
    ∷ ("equity option", "OS")
    ∷ ("index option", "OI")
    ∷ ("future option", "OF")
    ∷ ("cryptocurrency", "CR")
    ∷ ("crypto", "CR")
    ∷ []

unfoldable pub product_in : List (String × String) → String → Option String
unfolding codes strip lower same_codes
product_in [] raw = none
product_in ((name, product) ∷ rest) raw =
    if same_codes (lower (strip (codes raw))) (codes name)
    then some product
    else product_in rest raw

unfoldable pub instrument_type_to_product_type : Option String → Option String
unfolding product_in
instrument_type_to_product_type none = none
instrument_type_to_product_type (some raw) = product_in instrument_products raw

-- `PassthroughResolver.resolve`
unfoldable pub passthrough : SecurityResolver
unfolding instrument_type_to_product_type
passthrough vendor_symbol instrument_type = ok (record {
  security_id = vendor_symbol;
  product_type = instrument_type_to_product_type instrument_type;
  underlying = none;
  expiry = none;
  strike = none;
  option_type = none;
  multiplier = none;
})

-- `SecurityRepository.upsert`
unfoldable pub security_row : ResolvedSecurity → String → SecurityRow
security_row resolved tt_symbol = record {
  security_id = resolved.security_id;
  product_type = get_or_else resolved.product_type "";
  underlying = resolved.underlying;
  expiry = resolved.expiry;
  strike = resolved.strike;
  option_type = resolved.option_type;
  multiplier = resolved.multiplier;
  exchange = none;
  currency = none;
  tt_symbol = some tt_symbol;
  occ_symbol = none;
  streamer_symbol = none;
  source_system = "tastytrade";
  metadata = none;
}

-- the store and the ids of the securities that this import has written
pub record Seen : Type 0 where
  pub store : InMemoryStore
  pub ids : List String

-- a security is written the first time that an import meets it
unfoldable pub note_security : Seen → ResolvedSecurity → String → Seen
unfolding security_row
note_security seen resolved tt_symbol =
    if member resolved.security_id seen.ids then seen else record {
      store = upsert_security seen.store (security_row resolved tt_symbol);
      ids = resolved.security_id ∷ seen.ids;
    }
