-- ===== src/Store/Rows.antt =====
-- Rows of prisma/schema.prisma. Ids (UUIDs) are numbers; FARM amounts are atoms, 10^-8 FARM; times
-- are milliseconds. Balances are signed: the columns have no check, and a decrement can take one
-- below zero. Texts shown to people (descriptions, notification bodies) are left out, and so is
-- `updated_at`.
use farm_backend.Prelude.{ℕ, Bool, false, Option, none, List, []}
use farm_backend.Prelude.Int.{ℤ}
use farm_backend.Prelude.Text.{Text}
use farm_backend.Prelude.Table.{Table}
use farm_backend.Store.Orders.{
  MoneyRequest, Intent, PaymentRefund, BusinessPayment, Mandate, AgentRequest, Project, Investment,
}

-- biometric_settings
pub record Biometric : Type 0 where
  pub enabled : Bool
  pub device_fingerprint : Text
  pub failed_attempts : ℕ
  pub verification_count : ℕ
  pub last_verified_at : Option ℕ

pub record User : Type 0 where
  pub username : Text
  pub phone : Text
  pub email : Option Text
  pub is_super_admin : Bool
  pub is_deleted : Bool
  pub is_active : Bool
  pub pin_hash : Option Text
  pub failed_pin_attempts : ℕ
  pub biometric : Option Biometric

pub record Wallet : Type 0 where
  pub user_id : Option ℕ
  pub wallet_address : Text
  pub balance : ℤ
  pub locked_balance : ℤ
  pub is_active : Bool
  pub is_frozen : Bool

pub data EscrowStatus : Type 0 where
  pending active completed disputed cancelled refunded : EscrowStatus

pub record Evidence : Type 0 where
  pub reason : Text
  pub disputed_by : ℕ
  pub attachment : Option (Text × Text)  -- URL and media type

-- escrow_contracts
pub record Escrow : Type 0 where
  pub reference_code : ℕ
  pub buyer_id : Option ℕ
  pub seller_id : Option ℕ
  pub arbiter_id : Option ℕ
  pub buyer_wallet_id : Option ℕ
  pub seller_wallet_id : Option ℕ
  pub amount : ℕ
  pub fee : ℕ
  pub status : EscrowStatus
  pub title : Text
  pub description : Option Text
  pub evidence : Option Evidence
  pub created_at : ℕ
  pub funded_at : Option ℕ
  pub released_at : Option ℕ
  pub disputed_at : Option ℕ
  pub resolved_at : Option ℕ
  pub auto_release_at : ℕ
  pub resolution_note : Option Text
  pub released_amount : ℕ

-- escrow_messages
pub record Message : Type 0 where
  pub escrow_id : ℕ
  pub sender_id : ℕ
  pub message : Text
  pub attachment_url : Option Text

pub data TransactionType : Type 0 where
  transfer escrow_lock escrow_release escrow_refund fee : TransactionType
  investment investment_refund investment_settlement : TransactionType

pub data TransactionStatus : Type 0 where
  processing completed_tx : TransactionStatus

-- What the code puts into the `metadata` column.
pub record Metadata : Type 0 where
  pub user_id : Option ℕ
  pub escrow_id : Option ℕ
  pub is_partial : Bool
  pub milestone : Option Text
  pub merchant_fee : Option ℕ
  pub request_id : Option ℕ
  pub intent_id : Option ℕ
  pub project_id : Option ℕ

abbrev pub no_metadata : Metadata
no_metadata = record {
  user_id = none;
  escrow_id = none;
  is_partial = false;
  milestone = none;
  merchant_fee = none;
  request_id = none;
  intent_id = none;
  project_id = none;
}

pub record Transaction : Type 0 where
  pub reference : ℕ
  pub sender_wallet_id : Option ℕ
  pub receiver_wallet_id : Option ℕ
  pub kind : TransactionType
  pub status : TransactionStatus
  pub amount : ℕ
  pub fee : ℕ
  pub net_amount : ℤ
  pub metadata : Metadata
  pub created_at : ℕ
  pub processed_at : Option ℕ

pub data EntryType : Type 0 where
  debit credit : EntryType

-- ledger_entries
pub record LedgerEntry : Type 0 where
  pub transaction_id : Option ℕ
  pub wallet_id : ℕ
  pub entry_type : EntryType
  pub amount : ℤ
  pub balance_before : Option ℤ
  pub balance_after : Option ℤ

pub data BusinessRole : Type 0 where
  owner admin finance accountant operations developer : BusinessRole

-- businesses
pub record Business : Type 0 where
  pub owner_user_id : ℕ
  pub is_approved : Bool

-- business_members
pub record Member : Type 0 where
  pub business_id : ℕ
  pub user_id : ℕ
  pub role : BusinessRole
  pub is_active : Bool
  pub invited_by : Option ℕ

pub record Db : Type 0 where
  pub users : Table User
  pub wallets : Table Wallet
  pub escrows : Table Escrow
  pub messages : List Message
  pub transactions : Table Transaction
  pub ledger : List LedgerEntry
  pub businesses : Table Business
  pub members : Table Member
  pub transfer_requests : Table MoneyRequest
  pub payment_requests : Table MoneyRequest
  pub payment_intents : Table Intent
  pub payment_refunds : Table PaymentRefund
  pub business_payments : Table BusinessPayment
  pub agent_authorizations : Table Mandate
  pub agent_requests : Table AgentRequest
  pub projects : Table Project
  pub investments : Table Investment

-- A database with no rows.
abbrev pub empty_db : Db
empty_db = record {
  users = [];
  wallets = [];
  escrows = [];
  messages = [];
  transactions = [];
  ledger = [];
  businesses = [];
  members = [];
  transfer_requests = [];
  payment_requests = [];
  payment_intents = [];
  payment_refunds = [];
  business_payments = [];
  agent_authorizations = [];
  agent_requests = [];
  projects = [];
  investments = [];
}
