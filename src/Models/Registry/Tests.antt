-- ===== src/Models/Registry/Tests.antt =====
-- Runs of the registry of src/models/registry.c with two built-in backends.
use multi_model_llm_engine.Base.{ℕ, ◌≡◌, refl, true, false, some, List, [], ◌∷◌}
use multi_model_llm_engine.Base.Int.{ℤ, pos}
use multi_model_llm_engine.Formats.Gguf.Types.{same_text}
use multi_model_llm_engine.Models.Registry.{
  RunPath, Backend, Registry, is_usable, find_in, has_name, append, add, add_all, register_builtins,
  register, probe,
}
use multi_model_llm_engine.Models.Registry.Unique.{IsValid, empty-IsValid, register-IsValid}
use multi_model_llm_engine.Models.Registry.Best.{Leads, probe-Leads}

abbrev no_run : RunPath
no_run = record {
  load = false;
  destroy = false;
  decode = false;
  logits = false;
  state_create = false;
  state_destroy = false;
  state_bytes = false;
}

abbrev backend : List ℕ → ℤ → Backend
backend name score = record {
  name = name;
  probe = some (λ path. score);
  inspect = true;
  caps = some 0;
  run = no_run;
}

abbrev built_in : List Backend
built_in = backend (b'k' ∷ []) (pos 50) ∷ backend (b'q' ∷ []) (pos 90) ∷ []

abbrev fresh : Registry
fresh = record { reg = []; ready = false }

abbrev new : Backend
new = backend (b'n' ∷ []) (pos 90)

register-IsValid_example : IsValid (register built_in fresh new).1.reg
register-IsValid_example = register-IsValid built_in fresh new empty-IsValid

registered : (register built_in fresh new).0 ≡ true
unfolding register register_builtins add_all add append is_usable has_name find_in same_text
registered = refl

probe-Leads_example :
    Leads (b'x' ∷ []) (register_builtins built_in fresh).reg (probe built_in fresh (b'x' ∷ [])).0
probe-Leads_example = probe-Leads built_in fresh (b'x' ∷ [])
