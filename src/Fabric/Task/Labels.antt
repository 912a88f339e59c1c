-- ===== src/Fabric/Task/Labels.antt =====
-- The labels of priorities.
use tordex.Prelude.{◌≡◌, refl, some}
use tordex.Fabric.Task.{Priority, critical, high, medium, low, background, label, from_label}

-- Every priority is read back from its label.
pub from_label-label : (p : Priority) → from_label (label p) ≡ some p
unfolding from_label label
from_label-label critical = refl
from_label-label high = refl
from_label-label medium = refl
from_label-label low = refl
from_label-label background = refl
