-- ===== src/Tests/Registration.antt =====
-- The theorem about the registered classes, at one type.
use shared_object.Prelude.{◌≡◌, refl}
use shared_object.Altrep.Types.{realsxp, shared_real, get_alt_class}
use shared_object.Altrep.Registration.{registered, class_name-determines_type}

class_name-determines_type_example :
    ((registered shared_real).base_type ≡ realsxp) × (realsxp ≡ realsxp)
unfolding get_alt_class
class_name-determines_type_example =
    class_name-determines_type realsxp realsxp shared_real shared_real refl refl refl
