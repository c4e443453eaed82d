-- ===== src/Manifest/Packages.antt =====
-- What the validator takes from code outside the repository: Unicode's case-folding table, net/url,
-- encoding/json and the protobuf runtime.
use bloem_plugin_sdk.Base.{ℕ, String, Bool, Option, List}
use bloem_plugin_sdk.Values.{Value, Any}

-- What the validator reads of a `*url.URL`; `has_user` is `User != nil`.
pub record Url : Type 0 where
  pub scheme : String
  pub host : String
  pub has_user : Bool

-- The struct that `validateConfigSchema` decodes a JSON schema into: the schema's type and the type
-- of each property.
pub record ParsedSchema : Type 0 where
  pub type : String
  pub properties : List (String × String)

pub record Packages : Type 0 where
  -- one representative of a code point's class under simple case folding
  pub fold : ℕ → ℕ
  -- `url.Parse`, `none` on an error
  pub parse_url : String → Option Url
  -- `json.Unmarshal` into a `ParsedSchema`, `none` on an error
  pub parse_schema : String → Option ParsedSchema
  -- `(*structpb.Value).AsInterface`
  pub as_interface : Value → Any
