-- ===== src/Lint/Files.antt =====
-- The files that the linter reads and what it finds: the types of cmd/morsel/internal/lint/lint.go.
use morsel.Prelude.{ℕ, Bool, List, Option, String, Result, ℤ}

pub data Severity : Type 0 where
  error warning : Severity

-- The texts of the messages; Sprintf's are kept as what they are made of.
pub data Message : Type 0 where
  text : String → Message
  invalid_json : String → Message
  declared_in_multiple : String → List String → Message

pub record Diagnostic : Type 0 where
  pub file : String
  pub message : Message
  pub severity : Severity

pub record File : Type 0 where
  pub path : String
  pub content : List ℕ

pub record HealthCheck : Type 0 where
  pub path : String
  pub timeout : String

-- Whether a resource is permanent, if it is said.
pub record Persistence : Type 0 where
  pub database : Option (Option Bool)
  pub storage : Option (Option Bool)
  pub queues : Option (Option Bool)

-- A field of a text type that is left out is the empty text.
pub record MorselFile : Type 0 where
  pub schema : String
  pub name : String
  pub file_type : String
  pub dockerfile : String
  pub port : Option ℤ
  pub private : Option Bool
  pub tier : String
  pub idle_after : String
  pub health_check : Option HealthCheck
  pub schedule : String
  pub timeout : String
  pub retries : Option ℤ
  pub persistence : Option Persistence

-- The errors of the schema: each with the ones that caused it.
mutual
  pub data ValidationError : Type 0 where
    validation_error : String → Causes → ValidationError

  pub data Causes : Type 0 where
    no_cause : Causes
    cause : ValidationError → Causes → Causes

-- What the validation of a file says.
pub data Validation : Type 0 where
  valid : Validation
  invalid : ValidationError → Validation
  failed : String → Validation

-- What the linter calls: encoding/json, as json.Unmarshal into any value or into a file, a Decoder
-- that refuses unknown fields, and MarshalIndent; and the compiled schema.
pub record Json (Value : Type 0) : Type 0 where
  pub unmarshal : List ℕ → Result String Value
  pub validate : Value → Validation
  pub unmarshal_file : List ℕ → Result String MorselFile
  pub decode_strict : List ℕ → Result String MorselFile
  pub marshal_indent : MorselFile → Result String (List ℕ)
