-- ===== src/Lib.antt =====
-- A verification library for MuTap's feedback cancellers and anti-howl protection (include/mutap/).
--
-- The program. A live-sound chain cancels acoustic feedback on each microphone. Behind the
-- cancellers a guard watches every mic: howl_detector (include/mutap/howl_detector.h) analyses a
-- mic's residual and reports a verdict, and howl_guard (include/mutap/howl_guard.h) turns the
-- verdicts and the cancellers' statistics into a state for each mic (ARMING, OPEN, OPEN_CAPPED,
-- DUCKED, RELEASING, LATCHED), a gain ramp, and a gain for the shared bus. Each audio block the
-- host calls analyze() for every mic, then update(), and may change the policy, clear, reset or run
-- a calibration between blocks. afc_chain (include/mutap/afc_chain.h) makes those calls: it runs a
-- canceller for each mic against one delayed copy of the speaker feed, sums the guarded residuals
-- into the voice bus, and runs the bus through its stages and a delay line to the speaker. The
-- canceller is pem_afc (include/mutap/pem_afc.h): it predicts the echo of the loudspeaker with a
-- partitioned filter and subtracts it, fits a near-end model (lpc.h) to the residual, and adapts
-- the filter on the pair that the model has whitened, in partitioned_fdaf (fdaf.h) or
-- partitioned_fdkf (fd_kalman.h). A watchdog (watchdog.h) in each of the three resets it when a
-- block turns out not finite. afc_preset.h configures it; frequency_shifter.h, reverb_stage.h and
-- spectral_reverb.h are decorrelators of the bus, and nn_suppressor.h is a learned suppressor of
-- what echo remains in the residual.
--
-- Files.
--   Common: the names shared by all modules. Words: size_t. Int: integers over the native
--     naturals. Lists: lists with indexed reads and writes. Results: a thrown exception as a
--     value. Float: the arithmetic of Sample and of double as an interface, with Float.Whole an
--     instance of it over whole numbers with a NaN, on which the tests run.
--   Detector: howl_detector.h. Types: its structs. Loops and Decide: fit() and decide(), one
--     definition for each loop and each stage of the tick. Block: run_bank(), process_block(),
--     reset(). Setup: validated() and the constructor. The modules below these hold the theorems.
--   Guard: howl_guard.h. Types: guard_state, guard_policy, guard_calibration, mic_state and the
--     derived members. Machine: step() and what it calls, one definition for each case of its
--     switch. Ramp: render() and the gains. Attribution: attribute(). Policy: clamped() and
--     derive(). Calibration: the soundcheck histograms. Operations and Session: the object and
--     its public operations. Reach: every sequence of those operations.
--   Chain: afc_chain.h. Types: its members, constructor, reset() and setters, and what it takes
--     of a canceller and of a stage as interfaces. Ring: ring_read(), ring_write(), advance().
--     Process: process_block(), process_one() and what they call.
--   Shifter: frequency_shifter.h, which a host may attach to the chain as its decorrelator: the
--     Hilbert pair, the oscillator, process_block() and the constructor.
--   Suppressor: nn_suppressor.h. Weights: the trained weights and the parser of their image;
--     RoundTrip below it writes out export() of tools/ml/export_weights.py, which produces it.
--     Bands: the bands and their energies. Noise: the noise floor and the comfort noise. Engine:
--     the members, the constructor, reset() and process_block().
--   Reverb: reverb_stage.h, the two mixes around a mono reverb.
--   Predictor: lpc.h. Recursion: autocorrelation() and levinson(). Lpc, Warped and Speech: the
--     three near-end models.
--   Spectrum: what the partitioned filters share: packed_mac(), the ring of spectra, the
--     watchdog's test, the block's estimate; and the FFT as an interface.
--   Fdaf: fdaf.h. Coherence: update_ipc(). Update: the step of the filter.
--   Kalman: fd_kalman.h. Types: its members. Excitation: the novelty. Narrowband: the freeze.
--     Update: prediction and correction. Core: the filter as pem_afc's core and shadow, and that
--     canceller as one of the chain's.
--   Pem: pem_afc.h, over interfaces of the core, the near-end model and the shadow. Cores: the
--     FDAF and the predictors as instances of them.
--   Preset: pem_afc_preset() of afc_preset.h for the speech predictor.
--   Tail: spectral_reverb.h. Shape: the gains and poles of the bins. Hop: one hop. Blocks:
--     process_block().
--   Tests: instances of the theorems at concrete inputs.
--
-- Correspondence. An operation of a C++ object is a function from the object's record to its new
-- record. The parallel arrays of howl_guard, indexed by mic, are one list of channels; those of
-- howl_detector that are indexed by band are one list of bands. Scratch vectors that are written
-- before they are read are values. A member that the code never reads after construction is kept
-- only where an operation of the model uses it. The constructors' std::invalid_argument is `err` of
-- a result.
--
-- Numbers. size_t counters are naturals with the wrap-around at 2^64 written out where nothing
-- bounds them: the guard's and the watchdogs' counts, the lengths of the chain's rings, the
-- preset's window and the size products of the weights; the lengths of the other arrays are
-- products in the naturals, as of arrays that were allocated. The count that a reverb gets is cast
-- to an int of 32 bits. Floating point is an interface: every operation that the code applies to a
-- Sample or a double is a field, a cast to size_t among them, whose result on a value out of range
-- C++ leaves undefined. No law of rounded arithmetic is assumed but of comparison, as a hypothesis
-- of the theorems about ranges: that no number is below itself, that the clamps' literal bounds are
-- finite, and how they compare.
--
-- Loops. The loops of the detector's and of the shifter's process_block() run on fuel, the number
-- of samples left; each turn takes at least one sample while the position is inside the block or
-- the interval, so the fuel is enough. The pieces of reverb_stage.h run on the number of samples,
-- and the hops of spectral_reverb.h on one more than it, for the same reason. The other loops are
-- structural, over a list or a count. The chain's two bus buffers are values, since each is written
-- before it is read in every block.
--
-- Not modelled: the FFT and the network layers, which are the DspTap submodule: the FFT is a
-- parameter, with the sizes it keeps as its only law. Also left out: nn_chain.h, postfilter.h, of
-- afc_preset.h the guard preset and the predictors without lags, the readouts that only return a
-- member, the C API, benchmarks, tests, notebook tools and the vendored Faust library. The guard's
-- own bus stage is modelled by itself, not as the chain's safety stage, where it would share the
-- guard. A reverb and a shifter of a mix stage are parameters, and so are the chain's canceller and
-- stages. The lifetime of objects and the sharing of buffers between calls (in may equal out) are
-- outside the model, and so is the convergence of the adaptive filters.
pub mod Common
pub mod Detector
pub mod Guard
pub mod Chain
pub mod Shifter
pub mod Suppressor
pub mod Reverb
mod Tests
pub mod Predictor
pub mod Spectrum
pub mod Fdaf
pub mod Pem
pub mod Kalman
pub mod Preset
pub mod Tail
