-- ===== src/ProbeTypes/Tests.antt =====
-- Names of probes, and the theorems there.
use bpftrace.Util.Strings.{to_lower, lower_byte}
use bpftrace.Prelude.{◌≡◌, refl, codes}
use bpftrace.ProbeTypes.{
  probetype, find_item, expand_probe_name, probe_list, kretprobe, kprobe, uprobe,
}
use bpftrace.ProbeTypes.Names.{probetype-expand_probe_name}

probetype-expand_probe_name_example : probetype (expand_probe_name (codes "kr")) ≡ kretprobe
unfolding probetype find_item probe_list
probetype-expand_probe_name_example = probetype-expand_probe_name (codes "kr")

-- An alias in capitals is of a kind, but is not expanded to its full name.
capital_alias : (probetype (codes "K") ≡ kprobe) × (expand_probe_name (codes "K") ≡ codes "k")
unfolding probetype expand_probe_name find_item probe_list to_lower lower_byte
capital_alias = (refl, refl)

-- The alias of `usdt` in capitals is that of `uprobe` in lower case.
capital_usdt : (probetype (codes "U") ≡ uprobe) × (expand_probe_name (codes "U") ≡ codes "usdt")
unfolding probetype expand_probe_name find_item probe_list to_lower lower_byte
capital_usdt = (refl, refl)
