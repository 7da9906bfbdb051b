-- ===== src/CheckerCtrl/Undisturbed.antt =====
-- A round of `run` (internal/checkerctrl/controller.go) that nothing comes between.
use govnilo.Floats.{Floats}
use govnilo.SettingsSource
