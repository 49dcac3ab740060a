-- ===== src/Handlers/SystemInfo.antt =====
-- handlers/system_handler.go and dtos/system_info.go: the report on the machine. The lookups of gopsutil, each of
-- which can fail, and floating-point numbers are parameters.
use longclaw.Base.{
  ℕ, ◌+◌, ◌*◌, ◌-◌, ◌/◌, ◌%◌, ◌^◌, ◌<◌, ◌≡◌, refl, arith, lt→ltb, ltb, if◌then◌else◌, Option, none,
  some, List, [], ◌∷◌, ◌++◌, Bytes, codes, ℤ, pos, negsuc,
}
use longclaw.Strconv.{negate}

pub record Uptime : Type 0 where
  pub days : ℤ
  pub hours : ℤ
  pub minutes : ℤ

-- Of memory, and of the disk.
pub record Usage (Float : Type 0) : Type 0 where
  pub total : Float
  pub used : Float
  pub unit : Bytes

pub record Cpu (Float : Type 0) : Type 0 where
  pub model : Bytes
  pub cores : ℕ
  pub usage : Float

pub record SystemInfo (Float : Type 0) : Type 0 where
  pub hostname : Bytes
  pub os : Bytes
  pub kernel : Bytes
  pub arch : Bytes
  pub memory_usage : Usage Float
  pub disk_usage : Usage Float
  pub proc_usage : Cpu Float
  pub sys_uptime : Uptime

pub record HostInfo : Type 0 where
  pub hostname : Bytes
  pub platform : Bytes
  pub platform_version : Bytes
  pub kernel_version : Bytes
  pub uptime : ℕ

pub record Machine (Float : Type 0) : Type 0 where
  pub goarch : Bytes
  pub num_cpu : ℕ
  pub host_info : Option HostInfo
  pub virtual_memory : Option (ℕ × ℕ)
  pub disk_usage : Option (ℕ × ℕ)
  pub cpu_models : Option (List Bytes)
  pub cpu_percent : Option (List Float)

-- `time.Duration(seconds) * time.Second`, in 64 bits with a sign.
unfoldable pub duration : ℕ → ℤ
duration seconds =
    let n = seconds * 1000000000 % 2 ^ 64 in if ltb n (2 ^ 63) then pos n else negate (2 ^ 64 - n)

-- The whole units in a duration: `int(d.Hours())` and `int(d.Minutes())`, whose fraction is cut off.
abbrev pub whole : (unit : ℕ) → ℤ → ℤ
whole unit (pos n) = pos (n / unit)
whole unit (negsuc n) = negate ((n + 1) / unit)

-- Go's `/` and `%`, which round towards zero.
abbrev pub quotient : ℤ → ℕ → ℤ
quotient (pos n) d = pos (n / d)
quotient (negsuc n) d = negate ((n + 1) / d)

abbrev pub remainder : ℤ → ℕ → ℤ
remainder (pos n) d = pos (n % d)
remainder (negsuc n) d = negate ((n + 1) % d)

unfoldable pub uptime_of : ℕ → Uptime
unfolding duration
uptime_of seconds =
    let hours = whole 3600000000000 (duration seconds) in
    record {
      days = quotient hours 24;
      hours = remainder hours 24;
      minutes = remainder (whole 60000000000 (duration seconds)) 60;
    }

module _ {Float : Type 0} (zero_float : Float) (gigabytes : ℕ → Float) where
  abbrev pub empty_usage : Usage Float
  empty_usage = record { total = zero_float; used = zero_float; unit = [] }

  unfoldable pub usage_of : Option (ℕ × ℕ) → Usage Float
  usage_of none = empty_usage
  usage_of (some (total, used)) = record {
    total = gigabytes total;
    used = gigabytes used;
    unit = codes "GB";
  }

  abbrev pub first_or {ℓ} : {A : Type ℓ} → A → Option (List A) → A
  first_or a none = a
  first_or a (some []) = a
  first_or a (some (b ∷ rest)) = b

  -- A section whose lookup fails is left empty.
  unfoldable pub with_host : Option HostInfo → SystemInfo Float → SystemInfo Float
  unfolding uptime_of
  with_host none info = info
  with_host (some host) info = record info {
    hostname = host.hostname;
    os = host.platform ++ (codes " " ++ host.platform_version);
    kernel = host.kernel_version;
    sys_uptime = uptime_of host.uptime;
  }

  unfoldable pub system_info : Machine Float → SystemInfo Float
  unfolding with_host usage_of
  system_info m = with_host m.host_info (record {
    hostname = [];
    os = [];
    kernel = [];
    arch = m.goarch;
    memory_usage = usage_of m.virtual_memory;
    disk_usage = usage_of m.disk_usage;
    proc_usage = record {
      model = first_or [] m.cpu_models;
      cores = m.num_cpu;
      usage = first_or zero_float m.cpu_percent;
    };
    sys_uptime = record { days = pos 0; hours = pos 0; minutes = pos 0 };
  })

duration-small :
    (seconds : ℕ) → seconds * 1000000000 < 2 ^ 63 → duration seconds ≡ pos (seconds * 1000000000)
unfolding duration
duration-small seconds small =
    let e : seconds * 1000000000 % 2 ^ 64 ≡ seconds * 1000000000 = omega arith in
    rw (duration, e, lt→ltb _ _ small) refl

-- An uptime of less than 292 years is split without a loss: the days, hours and minutes are the whole minutes of it,
-- with hours below 24 and minutes below 60.
uptime_of_minutes :
    (seconds : ℕ)
    → seconds * 1000000000 < 2 ^ 63
    → (d h m : ℕ) × (uptime_of seconds ≡ record { days = pos d; hours = pos h; minutes = pos m })
      × ((d * 24 + h) * 60 + m ≡ seconds / 60)
      × (h < 24)
      × (m < 60)
unfolding uptime_of
uptime_of_minutes seconds small =
    let n = seconds * 1000000000 in
    (
      n / 3600000000000 / 24,
      n / 3600000000000 % 24,
      n / 60000000000 % 60,
      rw (uptime_of, duration-small seconds small) refl,
      omega arith,
      omega arith,
      omega arith,
    )
