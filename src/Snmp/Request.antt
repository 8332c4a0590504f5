-- ===== src/Snmp/Request.antt =====
-- What a request of src/switchtest/infrastructure/snmp.py is made of: the object, the value and the credentials, as
-- arguments of pysnmp's constructors.
use Prim.Native.Char.{Char, code}
use omniswitch_ci_cd.Prelude.{
  ℕ, ◌+◌, ◌-◌, ◌*◌, String, ◌<>◌, Bool, not, ◌&&◌, ◌||◌, Option, none, some, List, [], ◌∷◌, all,
  map, select, leb, ◌==◌, str_eq, if◌then◌else◌,
}
use omniswitch_ci_cd.Prelude.Text.{truthy, codes, chars, of_chars, strip_text, same}
use omniswitch_ci_cd.Prelude.Lines.{split_at, partition}
use omniswitch_ci_cd.Errors.{ErrorKind}
use omniswitch_ci_cd.Exec.{Result, ok, raised}
use omniswitch_ci_cd.Snmp.{SnmpV3Params}

abbrev refuse : {A : Type 0} → String → Result A
refuse message = raised (record { kind = ErrorKind.validation_execution; message = message })

-- `_AUTH_PROTOCOLS`, `_PRIV_PROTOCOLS` and `_VALUE_TYPES`.
abbrev pub auth_protocols : List (String × String)
auth_protocols =
    ("MD5", "usmHMACMD5AuthProtocol")
    ∷ ("SHA", "usmHMACSHAAuthProtocol")
    ∷ ("SHA1", "usmHMACSHAAuthProtocol")
    ∷ ("SHA224", "usmHMAC128SHA224AuthProtocol")
    ∷ ("SHA256", "usmHMAC192SHA256AuthProtocol")
    ∷ ("SHA384", "usmHMAC256SHA384AuthProtocol")
    ∷ ("SHA512", "usmHMAC384SHA512AuthProtocol")
    ∷ ("NONE", "usmNoAuthProtocol")
    ∷ []

abbrev pub priv_protocols : List (String × String)
priv_protocols =
    ("DES", "usmDESPrivProtocol")
    ∷ ("3DES", "usm3DESEDEPrivProtocol")
    ∷ ("AES", "usmAesCfb128Protocol")
    ∷ ("AES128", "usmAesCfb128Protocol")
    ∷ ("AES192", "usmAesCfb192Protocol")
    ∷ ("AES256", "usmAesCfb256Protocol")
    ∷ ("NONE", "usmNoPrivProtocol")
    ∷ []

abbrev pub value_types : List (String × String)
value_types =
    ("s", "OctetString")
    ∷ ("i", "Integer32")
    ∷ ("u", "Unsigned32")
    ∷ ("a", "IpAddress")
    ∷ ("t", "TimeTicks")
    ∷ ("o", "ObjectIdentifier")
    ∷ []

abbrev upper_code : ℕ → ℕ
upper_code c = if leb b'a' c && leb c b'z' then c - 32 else c

-- The characters that `re.sub` of `[^A-Z0-9]` in the upper-case name keeps. `upper` maps ASCII letters.
abbrev is_key : ℕ → Bool
is_key c = (leb b'A' c && leb c b'Z') || (leb b'0' c && leb c b'9')

-- `table[key]` for the normalised name.
unfoldable pub lookup_key : List ℕ → List (String × String) → Option String
unfolding same
lookup_key key [] = none
lookup_key key ((name, value) ∷ entries) =
    let rest = lookup_key key entries in if same key (codes name) then some value else rest

abbrev known_or_refuse : (name kind known : String) → Option String → Result String
known_or_refuse name kind known (some protocol) = ok protocol
known_or_refuse name kind known none =
    refuse (
      "Unsupported SNMP "
      <> (kind <> (" protocol '" <> (name <> ("' (known: " <> (known <> ")"))))))

-- `_lookup_protocol`; `known` is the sorted list of the names in the table.
unfoldable pub lookup_protocol :
    (name : String) (table : List (String × String)) (kind known : String) → Result String
unfolding lookup_key
lookup_protocol name table kind known =
    known_or_refuse name kind known (lookup_key (select is_key (map upper_code (codes name))) table)

-- `UsmUserData` with the keys that are passed.
pub data UserData : Type 0 where
  no_auth : (user : String) → UserData
  auth_only : (user auth_password auth_protocol : String) → UserData
  auth_and_priv : (user auth_password priv_password auth_protocol priv_protocol : String) → UserData

abbrev with_priv : SnmpV3Params → (auth_protocol : String) → Result String → Result UserData
with_priv params auth_protocol (raised exc) = raised exc
with_priv params auth_protocol (ok priv_protocol) = ok (
    auth_and_priv params.user params.auth_password params.priv_password auth_protocol priv_protocol)

abbrev with_auth : SnmpV3Params → Result String → Result UserData
with_auth params (raised exc) = raised exc
with_auth params (ok auth_protocol) =
    if str_eq params.level "noAuthNoPriv"
    then ok (no_auth params.user)
    else if str_eq params.level "authNoPriv"
    then ok (auth_only params.user params.auth_password auth_protocol)
    else if not (str_eq params.level "authPriv")
    then refuse (
        "Unknown SNMP security level '"
        <> (params.level <> "' (expected noAuthNoPriv, authNoPriv or authPriv)"))
    else with_priv params auth_protocol (
        lookup_protocol params.priv_protocol priv_protocols "privacy"
          "3DES, AES, AES128, AES192, AES256, DES, NONE")

-- `_user_data`.
unfoldable pub user_data : SnmpV3Params → Result UserData
unfolding lookup_protocol
user_data params = with_auth params (
    lookup_protocol params.auth_protocol auth_protocols "auth"
      "MD5, NONE, SHA, SHA1, SHA224, SHA256, SHA384, SHA512")

-- An argument of `ObjectIdentity` behind the symbol.
pub data IndexPart : Type 0 where
  number : ℕ → IndexPart
  word : String → IndexPart

pub data ObjectIdentity : Type 0 where
  numeric : (oid : String) → ObjectIdentity
  symbolic : (mib symbol : String) → List IndexPart → ObjectIdentity

abbrev is_digit : ℕ → Bool
is_digit c = leb b'0' c && leb c b'9'

-- `part.isdigit()`, for ASCII digits.
abbrev pub is_decimal : String → Bool
is_decimal part = truthy part && all is_digit (codes part)

-- `int(part)` of digits.
read_decimal : ℕ → List ℕ → ℕ
read_decimal n [] = n
read_decimal n (c ∷ s) = read_decimal (n * 10 + (c - 48)) s

abbrev index_part : String → IndexPart
index_part part = if is_decimal part then number (read_decimal 0 (codes part)) else word part

abbrev split_dots : String → List String
split_dots text = split_at (λ c. c == b'.') [] (chars text)

abbrev without_dot : List Char → List Char
without_dot [] = []
without_dot (c ∷ s) = if code c == b'.' then s else c ∷ s

-- `_NUMERIC_OID_RE.match`: an optional dot and then decimal numbers between dots.
unfoldable pub is_numeric_oid : String → Bool
unfolding split_at
is_numeric_oid oid = all is_decimal (split_at (λ c. c == b'.') [] (without_dot (chars oid)))

abbrev indexed :
    (mib : String) (symbol : List Char) → Option (List Char × List Char) → ObjectIdentity
indexed mib symbol none = symbolic mib (of_chars symbol) []
indexed mib symbol (some (name, [])) = symbolic mib (of_chars name) []
indexed mib symbol (some (name, c ∷ index)) =
    symbolic mib (of_chars name) (map index_part (split_dots (of_chars (c ∷ index))))

abbrev symbol_of : (mib : String) → List Char → ObjectIdentity
symbol_of mib symbol = indexed mib symbol (partition (codes ".") symbol)

abbrev in_mib : (oid : List Char) → Option (List Char × List Char) → ObjectIdentity
in_mib oid none = symbol_of "SNMPv2-MIB" oid
in_mib oid (some (mib, symbol)) = symbol_of (of_chars mib) symbol

-- `_object_identity`.
unfoldable pub object_identity : (oid : String) → ObjectIdentity
unfolding strip_text is_numeric_oid partition split_at read_decimal
object_identity oid =
    let stripped = strip_text oid in
    if is_numeric_oid stripped
    then numeric stripped
    else in_mib (chars stripped) (partition (codes "::") (chars stripped))
