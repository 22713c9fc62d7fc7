-- ===== src/Tree/Routes.antt =====
-- tree.go: `addRoute` and `getValue` together, on a tree that starts empty.
use gofi.Tree.Node.{Node}
