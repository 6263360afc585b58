-- ===== src/Diag.antt =====
-- src/diag.c and src/skylink/diag.h: the diagnostic counters, words of 16 bits that wrap.
use skylink.Base.{ℕ, ◌+◌, ◌%◌, ◌==◌, if◌then◌else◌}

-- `SkyVCDiagnostics`
pub record VcDiagnostics : Type 0 where
  pub arq_retransmits : ℕ
  pub tx_frames : ℕ
  pub rx_frames : ℕ

-- `struct sky_diag`
pub record Diagnostics : Type 0 where
  pub rx_frames : ℕ
  pub rx_bytes : ℕ
  pub rx_fec_ok : ℕ
  pub rx_fec_fail : ℕ
  pub rx_fec_octs : ℕ
  pub rx_fec_errs : ℕ
  pub rx_hmac_fail : ℕ
  pub rx_arq_resets : ℕ
  pub tx_frames : ℕ
  pub tx_bytes : ℕ
  pub vc_stats : ℕ → VcDiagnostics

-- `sky_diag_create`, and what `sky_diag_clear` leaves.
abbrev pub create : Diagnostics
create = record {
  rx_frames = 0;
  rx_bytes = 0;
  rx_fec_ok = 0;
  rx_fec_fail = 0;
  rx_fec_octs = 0;
  rx_fec_errs = 0;
  rx_hmac_fail = 0;
  rx_arq_resets = 0;
  tx_frames = 0;
  tx_bytes = 0;
  vc_stats = λ _. record { arq_retransmits = 0; tx_frames = 0; rx_frames = 0 };
}

-- Adding to a counter.
abbrev pub counted : ℕ → ℕ → ℕ
counted counter n = (counter + n) % 65536

-- `vc_stats[vc].rx_frames++`
abbrev pub count_vc_rx : Diagnostics → ℕ → Diagnostics
count_vc_rx d vc = record d {
  vc_stats = λ i.
      if i == vc
      then record (d.vc_stats i) { rx_frames = counted (d.vc_stats i).rx_frames 1 }
      else d.vc_stats i;
}
