-- ===== src/ErrorCodes/Registry.antt =====
-- The registry order of error_codes.py is a bijection with the codes.
use label_309_py.Prelude.{◌≡◌, refl, some, get_elem?}
use label_309_py.ErrorCodes.{ErrorCode, malformed_cbor, error_codes, error_code_registry_index}

-- At the registry index of a code stands the code.
get_elem?-error_code_registry_index :
    (code : ErrorCode) → get_elem? error_codes (error_code_registry_index code) ≡ some code
unfolding error_codes error_code_registry_index
get_elem?-error_code_registry_index malformed_cbor = refl
get_elem?-error_code_registry_index _ = refl
