-- ===== src/Pnl/Fills.antt =====
-- What a settled fill books: `realizedPnlForFill` against `calcUnrealizedPnl`, and `recordFillPnl` of
-- client/lib/stats.ts on the event table with its unique index.
use kryon_v.Base.{
  ℕ, ◌≡◌, zero, refl, Bool, true, false, not, ◌&&◌, some, List, [], ◌∷◌, ◌++◌, arith, if◌then◌else◌,
  findb, someb, Text, codes, text_eq, ℤ, pos, ◌-ℤ◌, ◌≤ℤ◌, ltb_ℤ, All, eq_of_parts,
}
use kryon_v.Pnl.{RawPos, calc_unrealized_pnl, is_opposite, realized_pnl_for_fill}

-- Closing a position whole books exactly the unrealized PnL that the position showed at the fill
-- price, whatever part of the fill is left over to open the other side.
pub realized_pnl_for_fill-eq-unrealized :
    (positions : List RawPos) (market_id : ℕ) (fill_is_long : Bool) (fill_size fill_price : ℤ)
    (p : RawPos)
    → findb (is_opposite market_id fill_is_long) positions ≡ some p
    → p.size ≤ℤ fill_size
    → pos 1 ≤ℤ p.size
    → pos 1 ≤ℤ p.entry_price
    → pos 1 ≤ℤ fill_price
    → realized_pnl_for_fill positions market_id fill_is_long fill_size fill_price
      ≡ calc_unrealized_pnl p.is_long p.size p.entry_price fill_price
unfolding realized_pnl_for_fill calc_unrealized_pnl
realized_pnl_for_fill-eq-unrealized positions market_id fill_is_long fill_size fill_price p e h s n
      m =
    rw e (ground (arith, eq_of_parts p.size fill_size))

-- A fill with no open position on the other side of its market books nothing.
pub realized_pnl_for_fill_opening :
    (positions : List RawPos) (market_id : ℕ) (fill_is_long : Bool) (fill_size fill_price : ℤ)
    → All (λ p. is_opposite market_id fill_is_long p ≡ false) positions
    → realized_pnl_for_fill positions market_id fill_is_long fill_size fill_price ≡ pos 0
unfolding realized_pnl_for_fill
realized_pnl_for_fill_opening [] market_id fill_is_long fill_size fill_price h = refl
realized_pnl_for_fill_opening (p ∷ ps) market_id fill_is_long fill_size fill_price (h, hs) =
    rw h (realized_pnl_for_fill_opening ps market_id fill_is_long fill_size fill_price hs)

pub data PnlEventKind : Type 0 where
  realized_trade funding liquidation fee : PnlEventKind

pub record PnlEvent : Type 0 where
  pub network : Text
  pub address : Text
  pub market_id : ℕ
  pub kind : PnlEventKind
  pub amount : ℤ
  pub size : ℤ
  pub price : ℤ
  pub ledger : ℕ
  pub tx_hash : Text
  pub ref_key : Text

abbrev pub kind_eq : PnlEventKind → PnlEventKind → Bool
kind_eq realized_trade realized_trade = true
kind_eq funding funding = true
kind_eq liquidation liquidation = true
kind_eq fee fee = true
kind_eq _ _ = false

-- Two rows with the same unique key (network, address, kind, refKey).
unfoldable pub same_key : PnlEvent → PnlEvent → Bool
same_key a b =
    text_eq a.network b.network
    && text_eq a.address b.address
    && kind_eq a.kind b.kind
    && text_eq a.ref_key b.ref_key

-- `INSERT ... ON CONFLICT (network, address, kind, "refKey") DO NOTHING`
unfoldable pub insert_event : PnlEvent → List PnlEvent → List PnlEvent
insert_event e events = if someb (same_key e) events then events else events ++ e ∷ []

-- The same behind the `if` of the loop.
unfoldable pub insert_when : Bool → PnlEvent → List PnlEvent → List PnlEvent
insert_when true e events = insert_event e events
insert_when false e events = events

pub record FillSide : Type 0 where
  pub address : Text
  pub is_long : Bool
  pub positions_before : List RawPos
  pub fee : ℤ

pub record FillArgs : Type 0 where
  pub market_id : ℕ
  pub tx_hash : Text
  pub ledger : ℕ
  pub fill_size : ℤ
  pub fill_price : ℤ
  pub maker : FillSide
  pub taker : FillSide

abbrev pub is_zero : ℤ → Bool
is_zero (pos zero) = true
is_zero _ = false

module _ (network : Text) (args : FillArgs) where
  abbrev pub side_realized : FillSide → ℤ
  side_realized who =
      realized_pnl_for_fill who.positions_before args.market_id who.is_long args.fill_size
        args.fill_price

  -- `refKey` of a side: the transaction's hash, a colon and the tag
  abbrev pub ref_key : Text → Text
  ref_key tag = args.tx_hash ++ b':' ∷ tag

  abbrev pub realized_event : FillSide → Text → PnlEvent
  realized_event who tag = record {
    network = network;
    address = who.address;
    market_id = args.market_id;
    kind = realized_trade;
    amount = side_realized who;
    size = args.fill_size;
    price = args.fill_price;
    ledger = args.ledger;
    tx_hash = args.tx_hash;
    ref_key = ref_key tag;
  }

  abbrev pub fee_event : FillSide → Text → PnlEvent
  fee_event who tag = record {
    network = network;
    address = who.address;
    market_id = args.market_id;
    kind = PnlEventKind.fee;
    amount = pos 0 -ℤ who.fee;
    size = pos 0;
    price = args.fill_price;
    ledger = args.ledger;
    tx_hash = args.tx_hash;
    ref_key = ref_key tag ++ codes ":fee";
  }

  -- One round of the loop over the two sides.
  unfoldable pub record_side : FillSide → Text → List PnlEvent → List PnlEvent
  record_side who tag events =
      let events' =
        insert_when (not (is_zero (side_realized who))) (realized_event who tag) events in
      insert_when (ltb_ℤ (pos 0) who.fee) (fee_event who tag) events'

  unfoldable pub record_fill_pnl : List PnlEvent → List PnlEvent
  unfolding record_side
  record_fill_pnl events =
      record_side args.taker (codes "taker") (record_side args.maker (codes "maker") events)
