-- ===== src/Options/Documented.antt =====
-- The tables of options that argp prints, `options` of writeproxy.cpp and of anonymbe.cpp, against
-- what `parse_opt` takes.
use anonym_sharing.Base.{
  ◌≡◌, ◌↔◌, arith, String, Bool, true, false, List, [], ◌∷◌, Result, ok, ℤ, if◌then◌else◌, str_eq,
}
use anonym_sharing.Std.Order.{Bytes}
use anonym_sharing.Options.{RawArguments, unknown_key, parse_opt, set_port, set_option, field_of}
use anonym_sharing.Options.Monitor.{MonitorArguments, parse_monitor_opt, set_monitor_port}

-- struct argp_option: name, key, arg and doc. The flags are 0.
pub record ArgpOption : Type 0 where
  pub name : String
  pub key : String
  pub arg : String
  pub doc : String

abbrev pub options : List ArgpOption
options =
    record { name = "port"; key = "p"; arg = "port"; doc = "Server listening port (Default: 4445)" }
    ∷ record { name = "endpoint"; key = "m"; arg = "host:port"; doc = "Minio server endpoint" }
    ∷ record { name = "access"; key = "a"; arg = "ACCESSKEY"; doc = "Minio access key" }
    ∷ record { name = "secret"; key = "k"; arg = "SECRETKEY"; doc = "Minio secret key" }
    ∷ record {
      name = "tokenuser";
      key = "u";
      arg = "USERNAME";
      doc = "Username of identity server";
    }
    ∷ record {
      name = "tokenpass";
      key = "w";
      arg = "PASSWORD";
      doc = "Password of identity server";
    }
    ∷ record {
      name = "tokenendpoint";
      key = "t";
      arg = "host:port";
      doc = "Identity server endpoint";
    }
    ∷ record {
      name = "amendpoint";
      key = "e";
      arg = "host:port";
      doc = "Access Monitor (anonymbe) endpoint. When user rights should be checked";
    }
    ∷ []

abbrev pub monitor_options : List ArgpOption
monitor_options =
    record { name = "port"; key = "p"; arg = "port"; doc = "Listening port" }
    ∷ record {
      name = "indexed";
      key = "i";
      arg = "boolean";
      doc = "Indexed envelopes: true or false. Default: true.";
    }
    ∷ record { name = "mongo"; key = "m"; arg = "string"; doc = "Connection string for MongoDB" }
    ∷ []

abbrev pub is_documented : String → List ArgpOption → Bool
is_documented key [] = false
is_documented key (o ∷ os) = if str_eq key o.key then true else is_documented key os

-- The writer proxy takes exactly the options of its table, whatever their arguments.
pub parse_opt-documented :
    (stoi : Bytes → Result ℤ) (key : String) (arg : Bytes) (args : RawArguments)
    → ((parse_opt stoi key arg args).0 ≡ ok unknown_key) ↔ (is_documented key options ≡ false)
unfolding parse_opt set_port set_option field_of
parse_opt-documented stoi key arg args = (λ h. ground (arith, h), λ h. ground (arith, h))

-- So does the access monitor.
pub parse_monitor_opt-documented :
    (stoi : Bytes → Result ℤ) (is_false : Bytes → Bool) (key : String) (arg : Bytes)
    (args : MonitorArguments)
    → ((parse_monitor_opt stoi is_false key arg args).0 ≡ ok unknown_key)
      ↔ (is_documented key monitor_options ≡ false)
unfolding parse_monitor_opt set_monitor_port
parse_monitor_opt-documented stoi is_false key arg args =
    (λ h. ground (arith, h), λ h. ground (arith, h))
