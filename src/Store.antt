-- ===== src/Store.antt =====
-- The tables that the services share (kryon-protocol/prisma/schema.prisma), as the queries of the
-- client's scripts and routes read and write them. A decimal text column is the number it holds, a
-- timestamp is in milliseconds; `unsignedXdr` is the JSON object that it holds, `none` where the text
-- is no JSON.
use kryon_v.Base.{ℕ, Bool, Option, List, Text}

pub record Order : Type 0 where
  pub id : Text
  pub owner : Text
  pub market_id : ℕ
  pub is_long : Bool
  pub size : ℕ
  pub limit_price : ℕ
  pub reduce_only : Bool
  pub nonce : ℕ
  pub expiry_ts : ℕ
  pub cancelled : Bool
  pub filled_size : ℕ
  pub created_at : ℕ
  pub signature : Option Text

pub record Fill : Type 0 where
  pub network : Text
  pub market_id : ℕ
  pub maker : Text
  pub maker_nonce : ℕ
  pub taker : Text
  pub taker_nonce : ℕ
  pub fill_size : ℕ
  pub fill_price : ℕ
  pub tx_hash : Text
  pub ledger : ℕ

pub record Market : Type 0 where
  pub id : ℕ
  pub last_price : ℕ
  pub volume : ℕ
  pub last_oracle_price : Option ℕ

pub data TxStatus : Type 0 where
  queued submitted confirmed failed : TxStatus

pub record Payload : Type 0 where
  pub maker_address : Option Text
  pub taker_address : Option Text
  pub maker_auth_xdr : Option Text
  pub taker_auth_xdr : Option Text
  pub assembled_tx_xdr : Option Text
  pub maker_signed_entry : Option Text
  pub taker_signed_entry : Option Text
  pub fill_price : Option ℕ
  pub fill_size : Option ℕ
  pub market_id : Option ℕ
  pub pending_tx_hash : Option Text
  pub maker_nonce : Option ℕ
  pub taker_nonce : Option ℕ

-- A "TxJob" row of kind 'settle_fill'.
pub record TxJob : Type 0 where
  pub id : Text
  pub network : Text
  pub payload_hash : Text
  pub payload : Option Payload
  pub status : TxStatus
  pub submitted_hash : Option Text
  pub last_error : Option Text
  pub created_at : ℕ
  pub updated_at : ℕ

pub record Db : Type 0 where
  pub orders : List Order
  pub fills : List Fill
  pub markets : List Market
  pub jobs : List TxJob
  pub accounts : List Text
