-- ===== src/Viewer/Events.antt =====
-- dlv/dlv_dillevt.h: what the viewer's application posts to its frame.
use dill.Base.{ℕ, Bytes}

pub record DlvEvtDataConnStatus : Type 0 where
  pub server_addr : Bytes
  pub server_port : ℕ
  pub channel_num : ℕ

pub record DlvEvtDataLog : Type 0 where
  pub priority : ℕ
  pub channel : ℕ
  pub tag : Bytes
  pub message : Bytes
  pub timestamp_sec : ℕ
  pub timestamp_ms : ℕ

pub record DlvEvtDataRegister : Type 0 where
  pub channel : ℕ
  pub register : Bytes
  pub content : Bytes

-- DLVEVT_CONNSTAT, DLVEVT_LOGDATA and DLVEVT_REGDATA, with their data.
pub data DlvDillEvent : Type 0 where
  conn_stat : DlvEvtDataConnStatus → DlvDillEvent
  log_data : DlvEvtDataLog → DlvDillEvent
  reg_data : DlvEvtDataRegister → DlvDillEvent
