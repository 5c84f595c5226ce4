-- ===== src/Driver.antt =====
-- System_Info/driver_client/DriverClient.cpp with kernel_common/cpu_shared_info.h: the user side of
-- the CPU driver. The driver itself, CreateFile and the allocator are the environment.
pub mod Protocol
use hardware_monitor.Prelude.{
  Eq, Bool, Bytes, List, [], bytes, false, if◌then◌else◌, list_eq, ltb, nat_eq, not, suc, take,
  true, zero, ℕ, ◌%◌, ◌*◌, ◌+◌, ◌==◌, ◌^◌,
}
use hardware_monitor.Device.{sensor_type_eq}

pub data CpuVendor : Type 0 where
  cpu_vendor_unknown cpu_vendor_intel cpu_vendor_amd : CpuVendor

pub CpuVendor-discrete : Discrete CpuVendor
CpuVendor-discrete = hlevel

instance abbrev pub cpu_vendor_eq : Eq CpuVendor
cpu_vendor_eq = record { discrete = CpuVendor-discrete }

-- DetectCpuVendor: the vendor bytes that CPUID leaf 0 puts into EBX, EDX and ECX.
unfoldable pub detect_cpu_vendor : Bytes → CpuVendor
detect_cpu_vendor vendor =
    if vendor == bytes "GenuineIntel"
    then cpu_vendor_intel
    else if vendor == bytes "AuthenticAMD"
    then cpu_vendor_amd
    else cpu_vendor_unknown

-- METRIC_TYPE and METRIC_UNIT, as the driver writes them.
abbrev pub metric_temp : ℕ
metric_temp = 0

abbrev pub metric_voltage : ℕ
metric_voltage = 1

abbrev pub metric_clock_speed : ℕ
metric_clock_speed = 2

abbrev pub metric_load : ℕ
metric_load = 3

abbrev pub metric_power : ℕ
metric_power = 4

abbrev pub unit_millivolts : ℕ
unit_millivolts = 2

abbrev pub unit_milliwatts : ℕ
unit_milliwatts = 5

pub record CpuData : Type 0 where
  pub value : ℕ
  pub name : Bytes
  pub type : ℕ
  pub unit : ℕ
  pub cpu_id : ℕ

-- sizeof(CPU_DATA_HEADER), which is offsetof(CPU_DATA_BUFFER, data): three ULONGs.
abbrev pub header_size : ℕ
header_size = 12

-- sizeof(CPU_DATA): a ULONG, 32 chars and three USHORTs, aligned to four bytes.
abbrev pub data_size : ℕ
data_size = 44

abbrev pub dword : ℕ
dword = 2 ^ 32

pub data IoError : Type 0 where
  more_data insufficient_buffer other_error : IoError

-- What one DeviceIoControl does: it fills the buffer with entries and gives their announced count
-- and the bytes written, or fails with a required size in the header.
pub data Response : Type 0 where
  success : (bytes_ret entry_count : ℕ) → List CpuData → Response
  failure : IoError → (required_size : ℕ) → Response

-- The machine that the client runs on: `handle` is whether CreateFile opened the device, `control n
-- size` the n-th DeviceIoControl with a buffer of that size, `allocates n` whether the n-th
-- allocation succeeds.
pub record Machine : Type 0 where
  pub vendor : Bytes
  pub opens : Bytes → Bool
  pub control : ℕ → ℕ → Response
  pub allocates : ℕ → Bool

pub record DriverClient : Type 0 where
  pub vendor : CpuVendor
  pub h_device : Bool
  pub ret_data : List CpuData

-- The constructor. A device handle is modelled by whether it is valid.
unfoldable pub open_device : Machine → DriverClient
unfolding detect_cpu_vendor
open_device m = elim (detect_cpu_vendor m.vendor) [
  | cpu_vendor_intel ↦ record {
    vendor = cpu_vendor_intel;
    h_device = m.opens (bytes "\\\\.\\WindowsIntelCPUDriver");
    ret_data = [];
  }
  | cpu_vendor_amd ↦ record {
    vendor = cpu_vendor_amd;
    h_device = m.opens (bytes "\\\\.\\WindowsAMDCPUDriver");
    ret_data = [];
  }
  | cpu_vendor_unknown ↦ record { vendor = cpu_vendor_unknown; h_device = false; ret_data = [] }
]

abbrev pub is_valid : DriverClient → Bool
is_valid c = c.h_device

abbrev pub get_vendor : DriverClient → CpuVendor
get_vendor c = c.vendor

-- How a call of `runDriver` ends: its result and the `ret_data` that it leaves; or it is still in
-- its loop.
pub data Outcome : Type 0 where
  returned : (entries ret_data : List CpuData) → Outcome
  looping : Outcome

abbrev pub is_too_small : IoError → Bool
is_too_small more_data = true
is_too_small insufficient_buffer = true
is_too_small other_error = false

-- One pass of `while (true)`: the end of the call, or the next buffer size.
pub data Pass : Type 0 where
  ends : (entries ret_data : List CpuData) → Pass
  again : (buffer_size : ℕ) (first_pass : Bool) → Pass

-- `realloc` to `new_size`; if it fails the old buffer is freed and the call returns nothing.
abbrev pub resize : Machine → ℕ → List CpuData → ℕ → Pass
resize m n ret_data new_size =
    if m.allocates (suc n) then again new_size false else ends [] ret_data

-- The n-th pass, with one buffer allocated.
unfoldable pub pass : Machine → List CpuData → ℕ → ℕ → Bool → Pass
pass m ret_data n buffer_size first_pass = elim (m.control n buffer_size) [
  | success bytes_ret entry_count entries ↦
      let required_size = header_size + entry_count * data_size in
      if ltb bytes_ret required_size
      then ends [] ret_data
      else ends (take entry_count entries) (take entry_count entries)
  | failure err required_size ↦
      if first_pass
      then if is_too_small err then resize m n ret_data required_size else ends [] ret_data
      else if is_too_small err
      then resize m n ret_data ((required_size * 2) % dword)
      else again buffer_size false
]

unfoldable pub run_loop : Machine → List CpuData → ℕ → ℕ → ℕ → Bool → Outcome
unfolding pass
run_loop m ret_data zero n buffer_size first_pass = looping
run_loop m ret_data (suc fuel) n buffer_size first_pass =
    elim (pass m ret_data n buffer_size first_pass) [
      | ends entries kept ↦ returned entries kept
      | again size first ↦ run_loop m ret_data fuel (suc n) size first
    ]

unfoldable pub run_driver : ℕ → Machine → DriverClient → Outcome
unfolding run_loop
run_driver fuel m c =
    if not (is_valid c)
    then returned [] c.ret_data
    else if not (m.allocates 0)
    then returned [] c.ret_data
    else run_loop m c.ret_data fuel 0 header_size true
