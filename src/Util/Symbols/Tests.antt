-- ===== src/Util/Symbols/Tests.antt =====
-- The parts of symbols: runs of src/util/symbols.cpp at fixed inputs, and an instance of the theorem.
use bpftrace.Util.Symbols.{
  split_symbol_module, split_addrrange_symbol_module, symbol_has_cpp_mangled_signature, rfind,
}
use bpftrace.Util.Symbols.Split.{split_symbol-split_addrrange}
use bpftrace.Prelude.{◌≡◌, refl, true, none, [], ◌∷◌, ◌++◌, Bytes, codes}

-- Without a tab the whole text stands for the range and for the name.
no_tab :
    split_addrrange_symbol_module (codes "vmx_vmexit [kvm_intel]")
    ≡ (codes "vmx_vmexit [kvm_intel]", codes "vmx_vmexit", codes "kvm_intel")
unfolding split_addrrange_symbol_module rfind
no_tab = refl

mangled : symbol_has_cpp_mangled_signature (codes "_ZN3fooEv") ≡ true
unfolding symbol_has_cpp_mangled_signature
mangled = refl

abbrev range : Bytes
range = codes "0xc17e9373-0xc17e94ff"

abbrev name : Bytes
name = codes "vmx_vmexit"

abbrev module_name : Bytes
module_name = codes "kvm_intel"

no_bracket : rfind (module_name ++ codes "]") (codes " [") ≡ none
unfolding rfind
no_bracket = refl

no_other_tab : rfind (name ++ (codes " [" ++ (module_name ++ codes "]"))) (9 ∷ []) ≡ none
unfolding rfind
no_other_tab = refl

split_symbol-split_addrrange_example :
    (split_symbol_module (name ++ (codes " [" ++ (module_name ++ codes "]"))) ≡ (name, module_name))
    × (split_addrrange_symbol_module
          (range ++ (9 ∷ (name ++ (codes " [" ++ (module_name ++ codes "]")))))
        ≡ (range, name, module_name))
split_symbol-split_addrrange_example =
    split_symbol-split_addrrange range name module_name no_bracket no_other_tab
