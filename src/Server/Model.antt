-- ===== src/Server/Model.antt =====
-- internal/server/model.go. Times are in nanoseconds.
use gopanel.Common.{ℕ, Option, Bytes}

pub record Server : Type 0 where
  pub id : Bytes
  pub name : Bytes
  pub address : Bytes
  pub connection_type : Bytes
  pub credential_reference : Option Bytes
  pub created_at : ℕ
  pub updated_at : ℕ

pub record Input : Type 0 where
  pub name : Bytes
  pub address : Bytes
  pub connection_type : Bytes

pub record ValidatedInput : Type 0 where
  pub name : Bytes
  pub address : Bytes
  pub connection_type : Bytes
