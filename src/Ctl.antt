-- ===== src/Ctl.antt =====
-- cmd/openconnectctl/main.go: the commands of the command line client. The alignment of text/tabwriter
-- and the age of a time are parameters.
pub mod Settings
pub mod Rows
pub mod Laws
use openconnectd.Base.{
  ℕ, Bool, true, false, ◌&&◌, ◌||◌, not, List, [], ◌∷◌, ◌++◌, Option, none, some, Text, codes, same,
  is_nil, map, concat, if◌then◌else◌,
}
use openconnectd.Base.Int.{ℤ}
use openconnectd.Strings.{format_nat, format_int, is_blank}
use openconnectd.Errors.{Error, Result, ok, err}
use openconnectd.Errors.Message.{message}
use openconnectd.Exec.{Exec}
use openconnectd.Host.{Env, Host}
use openconnectd.Api.{VersionInfo, Instance, ClientPeer, Session}
use openconnectd.DaemonConfig
use openconnectd.DaemonConfig.{Yaml, load}
use openconnectd.ApiClient.{Client, Transport, Wire, new_client, with_token}
use openconnectd.ApiClient.Calls
use openconnectd.Ctl.Rows.{or_empty, version_line, instance_row, client_row, session_row, usage}

-- What the process prints, and its exit code.
pub record Outcome : Type 0 where
  pub out : Text
  pub failure : Text
  pub code : ℕ

abbrev prints : Text → Outcome
prints t = record { out = t; failure = []; code = 0 }

abbrev misused : Outcome
misused = record { out = []; failure = usage; code = 2 }

abbrev die : Text → Outcome
die t = record { out = []; failure = codes "openconnectctl: " ++ t ++ codes "\n"; code = 1 }

abbrev pub Action : Type 0 → Type 0
Action S = S → Outcome × S

module _ (quote : Text → Text) (align : Text → Text) (age : ℤ → Text) (wire : Wire) {S : Type 0}
    (transport : Transport S) where
  abbrev outcome_of {ℓ} : {A : Type ℓ} → (A → Text) → Result A → Outcome
  outcome_of f (ok a) = prints (f a)
  outcome_of f (err e) = die (message quote e)

  unfoldable pub told {ℓ} : {A : Type ℓ} → (A → Text) → Exec S A → Action S
  told f m s = let (r, s') = m s in (outcome_of f r, s')

  abbrev short : Text → Action S
  short t s = (die (codes "usage: " ++ t), s)

  module _ (c : Client) where
    abbrev version : Action S
    version = told version_line (Calls.version wire transport c)

    abbrev instances : Action S
    instances =
        told
          (λ xs. align (
            codes "NAME\tUP\tAUTH\tCAMOUFLAGE\tPOOL\tCLIENTS\tENDPOINT\n"
            ++ concat (map instance_row (or_empty xs))))
          (Calls.list_instances wire transport c)

    abbrev sessions : Text → Action S
    sessions name =
        told
          (λ xs. align (
            codes "USER\tINSTANCE\tVPN IP\tREMOTE IP\tRX\tTX\tDTLS\tSINCE\n"
            ++ concat (map (session_row age) (or_empty xs))))
          (Calls.sessions wire transport c name)

    abbrev clients : Text → Action S
    clients name =
        told
          (λ xs. align (
            codes "COMMON NAME\tNAME\tAUTH\tSUSPENDED\tCERT SERIAL\n"
            ++ concat (map client_row (or_empty xs))))
          (Calls.list_clients wire transport c name)

    abbrev config : Text → Text → Action S
    config name cn = told (λ t. t) (Calls.client_config wire transport c name cn)

    abbrev disconnect : Text → Text → Action S
    disconnect name cn =
        told (λ _. codes "disconnected " ++ cn ++ codes "@" ++ name ++ codes "\n")
          (Calls.disconnect wire transport c name cn)

    abbrev rm_client : Text → Text → Action S
    rm_client name cn =
        told (λ _. codes "removed " ++ cn ++ codes "@" ++ name ++ codes " (cert revoked)\n")
          (Calls.delete_client wire transport c name cn)

    -- The arguments behind the command; more than are wanted are not looked at.
    abbrev optional : (Text → Action S) → List Text → Action S
    optional f [] = f []
    optional f (a ∷ rest) = f a

    abbrev one : Text → (Text → Action S) → List Text → Action S
    one t f [] = short t
    one t f (a ∷ rest) = f a

    abbrev two : Text → (Text → Text → Action S) → List Text → Action S
    two t f [] = short t
    two t f (a ∷ []) = short t
    two t f (a ∷ b ∷ rest) = f a b

    unfoldable pub command : Text → List Text → Action S
    command name args =
        if same name (codes "version")
        then version
        else if same name (codes "instances")
        then instances
        else if same name (codes "sessions")
        then optional sessions args
        else if same name (codes "clients")
        then one (codes "clients <instance>") clients args
        else if same name (codes "config")
        then two (codes "config <instance> <common-name>") config args
        else if same name (codes "disconnect")
        then two (codes "disconnect <instance> <common-name>") disconnect args
        else if same name (codes "rm-client")
        then two (codes "rm-client <instance> <common-name>") rm_client args
        else (λ s. (misused, s))

  abbrev with_client : Result Client → Text → List Text → Action S
  with_client (ok c) name args s = command c name args s
  with_client (err e) name args s = (die (message quote e), s)

  -- main, behind the flags and `resolve`
  unfoldable pub main : Text × Text → List Text → Action S
  main found [] s = (misused, s)
  main (base, token) (name ∷ args) s =
      with_client (new_client base (with_token token ∷ [])) name args s
