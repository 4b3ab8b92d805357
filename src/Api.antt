-- ===== src/Api.antt =====
-- pkg/api/types.go: the wire types. `AuthMode` is a string type, so any text can stand there.
use openconnectd.Base.{ℕ, Bool, List, Option, Text, codes}
use openconnectd.Base.Int.{ℤ}

pub record VersionInfo : Type 0 where
  pub version : Text
  pub commit : Text
  pub ocserv_path : Text
  pub ocserv_ver : Text

abbrev pub AuthMode : Type 0
AuthMode = Text

abbrev pub auth_cert : AuthMode
auth_cert = codes "cert"

abbrev pub auth_password : AuthMode
auth_password = codes "password"

abbrev pub auth_both : AuthMode
auth_both = codes "both"

pub record Camouflage : Type 0 where
  pub enabled : Bool
  pub secret : Text
  pub realm : Text
  pub decoy_html : Text

pub record Instance : Type 0 where
  pub name : Text
  pub listen : Text
  pub dtls : Bool
  pub tcp_port : ℤ
  pub proxy_proto : Bool
  pub pool_cidr : Text
  pub pool_cidr_v6 : Text
  pub public_endpoint : Text
  pub local_bind : Text
  pub auth_mode : AuthMode
  pub camouflage : Camouflage
  pub dns : List Text
  pub routes : List Text
  pub enabled : Bool
  pub up : Bool
  pub client_count : ℤ
  pub session_count : ℤ

-- A pointer in the source is an `Option`.
pub record InstanceCreateRequest : Type 0 where
  pub name : Text
  pub listen : Text
  pub dtls : Option Bool
  pub tcp_port : ℤ
  pub proxy_proto : Option Bool
  pub pool_cidr : Text
  pub pool_cidr_v6 : Text
  pub public_endpoint : Text
  pub local_bind : Text
  pub auth_mode : AuthMode
  pub camouflage : Option Camouflage
  pub dns : List Text
  pub routes : List Text
  pub enabled : Option Bool
  pub create_ca_if_empty : Bool

-- `cert_expiry` is in seconds.
pub record ClientPeer : Type 0 where
  pub name : Text
  pub common_name : Text
  pub instance_name : Text
  pub auth_mode : AuthMode
  pub static_ip : Text
  pub enabled : Bool
  pub suspended : Bool
  pub cert_serial : Text
  pub cert_expiry : Option ℤ

pub record ClientCreateRequest : Type 0 where
  pub name : Text
  pub common_name : Text
  pub auth_mode : AuthMode
  pub static_ip : Text
  pub password : Text

-- `connected_at` is in seconds; `none` is the zero time.
pub record Session : Type 0 where
  pub common_name : Text
  pub instance_name : Text
  pub vpn_address : Text
  pub device : Text
  pub remote_ip : Text
  pub rx_bytes : ℕ
  pub tx_bytes : ℕ
  pub connected_at : Option ℤ
  pub user_agent : Text
  pub dtls : Bool
  pub session_id : Text

pub record Ban : Type 0 where
  pub ip : Text
  pub instance_name : Text
  pub score : ℤ
  pub banned : Bool
  pub since : Text

-- The body of an answer that is an error.
pub record ErrorBody : Type 0 where
  pub code : Text
  pub message : Text
