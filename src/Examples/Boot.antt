-- ===== src/Examples/Boot.antt =====
-- The start of the kernel on a machine with a heap of 4096 bytes.
use xinu.Base.{◌≡◌, refl, arith}
use xinu.Examples.Queues.{sample}
use xinu.Kernel.{Kernel, ok}
use xinu.Memory.{roundmb, truncmb}
use xinu.Start.{sysinit}
use xinu.Start.Started.{Started, sysinit-Started}

abbrev cold : Kernel
cold = record sample { nextqid = 100 }

sysinit-Started_example : (k' : Kernel) × (sysinit 10 2048 cold ≡ ok tt k') × Started 10 cold k'
unfolding roundmb truncmb
sysinit-Started_example =
    sysinit-Started 10 2048 cold refl (omega arith) (omega arith) (omega arith)
