-- ===== src/ProbeTypes.antt =====
-- src/probe_types.h and src/probe_types.cpp: the kinds of probes and their names.
mod Names
mod Tests
use bpftrace.Prelude.{
  ◌-◌, ◌/◌, Bool, false, not, ◌||◌, Option, none, some, List, [], ◌∷◌, if◌then◌else◌, Bytes, codes,
  text_eq,
}
use bpftrace.Util.Strings.{to_lower}

-- `enum class ProbeType`.
pub data ProbeType : Type 0 where
  invalid special test benchmark kprobe kretprobe uprobe uretprobe usdt tracepoint profile interval
        software hardware watchpoint asyncwatchpoint fentry fexit iter rawtracepoint :
      ProbeType

-- `ProbeItem`, less the two flags for listings.
pub record ProbeItem : Type 0 where
  pub name : Bytes
  pub aliases : List Bytes
  pub item_type : ProbeType

-- `PROBE_LIST`.
unfoldable pub probe_list : List ProbeItem
probe_list =
    record { name = codes "kprobe"; aliases = codes "k" ∷ []; item_type = kprobe }
    ∷ record { name = codes "kretprobe"; aliases = codes "kr" ∷ []; item_type = kretprobe }
    ∷ record { name = codes "uprobe"; aliases = codes "u" ∷ []; item_type = uprobe }
    ∷ record { name = codes "uretprobe"; aliases = codes "ur" ∷ []; item_type = uretprobe }
    ∷ record { name = codes "usdt"; aliases = codes "U" ∷ []; item_type = usdt }
    ∷ record { name = codes "begin"; aliases = []; item_type = special }
    ∷ record { name = codes "end"; aliases = []; item_type = special }
    ∷ record { name = codes "self"; aliases = []; item_type = special }
    ∷ record { name = codes "test"; aliases = []; item_type = test }
    ∷ record { name = codes "bench"; aliases = []; item_type = benchmark }
    ∷ record { name = codes "tracepoint"; aliases = codes "t" ∷ []; item_type = tracepoint }
    ∷ record { name = codes "profile"; aliases = codes "p" ∷ []; item_type = profile }
    ∷ record { name = codes "interval"; aliases = codes "i" ∷ []; item_type = interval }
    ∷ record { name = codes "software"; aliases = codes "s" ∷ []; item_type = software }
    ∷ record { name = codes "hardware"; aliases = codes "h" ∷ []; item_type = hardware }
    ∷ record { name = codes "watchpoint"; aliases = codes "w" ∷ []; item_type = watchpoint }
    ∷ record {
      name = codes "asyncwatchpoint";
      aliases = codes "aw" ∷ [];
      item_type = asyncwatchpoint;
    }
    ∷ record { name = codes "fentry"; aliases = codes "f" ∷ codes "kfunc" ∷ []; item_type = fentry }
    ∷ record {
      name = codes "fexit";
      aliases = codes "fr" ∷ codes "kretfunc" ∷ [];
      item_type = fexit;
    }
    ∷ record { name = codes "iter"; aliases = codes "it" ∷ []; item_type = iter }
    ∷ record { name = codes "rawtracepoint"; aliases = codes "rt" ∷ []; item_type = rawtracepoint }
    ∷ []

abbrev pub contains : Bytes → List Bytes → Bool
contains s [] = false
contains s (a ∷ l) = text_eq a s || contains s l

-- `find_if` with the name or an alias.
unfoldable pub find_item : Bytes → List ProbeItem → Option ProbeItem
find_item s [] = none
find_item s (p ∷ l) = if text_eq p.name s || contains s p.aliases then some p else find_item s l

abbrev pub type_of : Option ProbeItem → ProbeType
type_of none = invalid
type_of (some p) = p.item_type

unfoldable pub probetype : Bytes → ProbeType
probetype probe_name = type_of (find_item (to_lower probe_name) probe_list)

abbrev pub name_or : Bytes → Option ProbeItem → Bytes
name_or lower none = lower
name_or lower (some p) = p.name

-- Aliases are compared with the name as it is written, not in lower case.
unfoldable pub expand_probe_name : Bytes → Bytes
expand_probe_name orig_name = name_or (to_lower orig_name) (find_item orig_name probe_list)

-- `probetypeName`.
unfoldable pub probetype_name : ProbeType → Bytes
probetype_name invalid = codes "invalid"
probetype_name special = codes "special"
probetype_name test = codes "test"
probetype_name benchmark = codes "benchmark"
probetype_name kprobe = codes "kprobe"
probetype_name kretprobe = codes "kretprobe"
probetype_name uprobe = codes "uprobe"
probetype_name uretprobe = codes "uretprobe"
probetype_name usdt = codes "usdt"
probetype_name tracepoint = codes "tracepoint"
probetype_name profile = codes "profile"
probetype_name interval = codes "interval"
probetype_name software = codes "software"
probetype_name hardware = codes "hardware"
probetype_name watchpoint = codes "watchpoint"
probetype_name asyncwatchpoint = codes "asyncwatchpoint"
probetype_name fentry = codes "fentry"
probetype_name fexit = codes "fexit"
probetype_name iter = codes "iter"
probetype_name rawtracepoint = codes "rawtracepoint"
