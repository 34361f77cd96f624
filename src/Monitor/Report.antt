-- ===== src/Monitor/Report.antt =====
-- What both monitors make of a measurement: `datetime_to_prost` of src/utils.rs, the cast of a
-- rate, and the report in which only the load of the GPU is measured.
use laqista.Base.{◌^◌, ◌-◌, if◌then◌else◌}
use laqista.Base.Int.{ℤ, pos, negsuc, ltb_ℤ, as_i32}
use laqista.Types.{Timestamp, ResourceUtilization}
use laqista.Scheduler.Mean.{Floats}
use laqista.Monitor.Data.{Chrono}

-- `as i32` of a floating point number stops at the bounds, as its cast to `i64` does.
unfoldable pub to_i32 : ⦃f : Floats⦄ → Floats.F64 f → ℤ
to_i32 ⦃f⦄ x =
    let i = Floats.to_i64 f x in
    if ltb_ℤ i (negsuc (2 ^ 31 - 1))
    then negsuc (2 ^ 31 - 1)
    else if ltb_ℤ (pos (2 ^ 31 - 1)) i
    then pos (2 ^ 31 - 1)
    else i

-- The seconds are those of the minute.
unfoldable pub datetime_to_prost : ⦃c : Chrono⦄ → Chrono.DateTime c → Timestamp
datetime_to_prost ⦃c⦄ dt = record {
  seconds = pos (Chrono.second c dt);
  nanos = as_i32 (pos (Chrono.nanosecond c dt));
}

-- -1 stands for what is not measured.
abbrev pub gpu_only : ℤ → ResourceUtilization
gpu_only gpu = record {
  gpu = gpu;
  cpu = negsuc 0;
  ram_total = negsuc 0;
  ram_used = negsuc 0;
  vram_total = negsuc 0;
  vram_used = negsuc 0;
}
