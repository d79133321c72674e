-- ===== src/Types/Receipt.antt =====
-- types.py: the life of a supplier's receipt.
use accounting_tool.Prelude.{String, List, Option}
use accounting_tool.Decimal.{Decimal, Money}
use accounting_tool.Calendar.{Date}

pub data LineFlag : Type 0 where
  price_deviation unmapped_sku : LineFlag

pub data ReceiptState : Type 0 where
  new auto_rejected queued approved rejected : ReceiptState

pub record ExtractedReceiptLine : Type 0 where
  pub description : String
  pub quantity : Decimal
  pub unit_price : Money
  pub sku_id : Option String

pub record ExtractedReceipt : Type 0 where
  pub supplier_id : String
  pub invoice_date : Date
  pub lines : List ExtractedReceiptLine
  pub vat : Money
  pub total : Money

pub record LastKnownPrice : Type 0 where
  pub price : Money
  pub updated_at : Date

pub record CheckedLine : Type 0 where
  pub description : String
  pub quantity : Decimal
  pub unit_price : Money
  pub sku_id : Option String
  pub flags : List LineFlag

-- The text of a rejection is the four numbers that it prints.
pub record Rejection : Type 0 where
  pub lines_total : Decimal
  pub vat : Money
  pub total : Money
  pub tolerance : Decimal

pub record CheckedReceipt : Type 0 where
  pub supplier_id : String
  pub invoice_date : Date
  pub vat : Money
  pub total : Money
  pub state : ReceiptState
  pub lines : List CheckedLine
  pub rejection_reason : Option Rejection

pub record ReceiptDecision : Type 0 where
  pub decision : ReceiptState
  pub corrected_lines : Option (List ExtractedReceiptLine)

pub record PurchaseLine : Type 0 where
  pub sku_id : Option String
  pub description : String
  pub quantity : Decimal
  pub unit_price : Money

pub record Purchase : Type 0 where
  pub supplier_id : String
  pub invoice_date : Date
  pub lines : List PurchaseLine
  pub vat : Money
  pub total : Money
