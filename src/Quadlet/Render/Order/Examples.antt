-- ===== src/Quadlet/Render/Order/Examples.antt =====
-- RenderAll with one template, on a host whose commands succeed.
use slfhst.Prelude.{List, [], ◌∷◌, false}
use slfhst.Prelude.Int.{pos}
use slfhst.Prelude.Bytes.{Bytes, codes}
use slfhst.Config.{Map}
use slfhst.Runx.{exited}
use slfhst.Host.{Host, Kernel, Tree, file}
use slfhst.Quadlet.Render.{render_all}
use slfhst.Quadlet.Render.Order.{HasRun, render_all-HasRun}

abbrev kernel : Kernel (Unit {0})
kernel = record {
  exec = λ p w. (exited 0 [] [], w);
  temp = λ s prefix. prefix;
  denies = λ s p. false;
}

abbrev host : Host (Unit {0})
host = record {
  tree =
      (
        codes "/t/slfhst.target.tmpl",
        record { kind = file (codes "$DOMAIN"); mode = 420; owner = (pos 0, pos 0) },
      )
      ∷ [];
  outer = tt;
  log = [];
  typed = [];
}

abbrev templates : Tree → List Bytes
templates t = codes "/t/slfhst.target.tmpl" ∷ []

abbrev cfg : Map Bytes
cfg = (codes "domain", codes "x.y") ∷ []

render_all-HasRun_example : HasRun [] (render_all kernel templates cfg host)
render_all-HasRun_example = render_all-HasRun kernel templates cfg host
