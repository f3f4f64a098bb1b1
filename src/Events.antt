-- ===== src/Events.antt =====
-- src/common/events.hpp: what goes through the rings. A C array is a list; `char` arrays are lists
-- of bytes. Padding fields hold nothing and are left out.
use mm_engine.Base.{ℕ, List}
use mm_engine.Base.Int.{ℤ}

abbrev pub max_symbols : ℕ
max_symbols = 8

abbrev pub max_depth : ℕ
max_depth = 5

pub record MdEvent (W : Type 0) : Type 0 where
  pub t_recv_ns : ℤ
  pub symbol_id : ℕ
  pub n_bids : ℕ
  pub n_asks : ℕ
  pub bid_px : List W
  pub bid_qty : List W
  pub ask_px : List W
  pub ask_qty : List W
  pub last_px : W
  pub seq : ℕ

pub data OrdCmdType : Type 0 where
  new cancel : OrdCmdType

-- `unset` is the value 0 of a zeroed record, which is no enumerator.
pub data OrdSide : Type 0 where
  unset buy sell : OrdSide

pub record OrderCmd (W : Type 0) : Type 0 where
  pub type : OrdCmdType
  pub side : OrdSide
  pub symbol_id : ℕ
  pub price : W
  pub qty : W
  pub cl_ord_id : ℕ
  pub orig_cl_ord_id : ℕ
  pub t_md_ns : ℤ
  pub t_decided_ns : ℤ

pub data ExecKind : Type 0 where
  new canceled filled part_fill rejected replaced other : ExecKind

pub record ExecEvent (W : Type 0) : Type 0 where
  pub t_recv_ns : ℤ
  pub cl_ord_id : ℕ
  pub kind : ExecKind
  pub side : OrdSide
  pub symbol_id : ℕ
  pub last_px : W
  pub last_qty : W
  pub leaves_qty : W
  pub order_id : List ℕ

pub data LogKind : Type 0 where
  md_tick order_new order_cxl exec info : LogKind

pub record LogRecord (W : Type 0) : Type 0 where
  pub t_ns : ℤ
  pub kind : LogKind
  pub side : OrdSide
  pub symbol_id : ℕ
  pub px : W
  pub qty : W
  pub cl_ord_id : ℕ
  pub text : List ℕ

pub record BookSnapshot (W : Type 0) : Type 0 where
  pub t_ns : ℤ
  pub symbol_id : ℕ
  pub n_bids : ℕ
  pub n_asks : ℕ
  pub bid_px : List W
  pub bid_qty : List W
  pub ask_px : List W
  pub ask_qty : List W
